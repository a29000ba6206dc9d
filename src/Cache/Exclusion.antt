-- ===== src/Cache/Exclusion.antt =====
-- The lock of a key against the slot of the key: the reader of a key holds no lock that every writer
-- to the same slot takes.
use native.Mathlib.Nat.{add-mod_right}
use immutable_cache_pecl.Prelude.{ℕ, ◌+◌, ◌%◌, ◌≡◌, ◌∙◌, ap, List, arith, ◌==◌, false}
use immutable_cache_pecl.Cache.Locks.{lookup_fine_grained_lock}
use immutable_cache_pecl.Cache.State.{Cache, Shm}
use immutable_cache_pecl.Cache.Slots.{hash_slot}

module _ {V R W S : Type 0} (shm : Shm V R W S) (c : Cache R W S) (key other : List ℕ) where
  -- If the number of slots is odd and the hashes of two keys differ by that number, the keys have
  -- the same slot, but not the same fine-grained lock.
  pub hash_slot-lookup_fine_grained_lock :
      shm.hash other ≡ shm.hash key + c.nslots
      → c.nslots % 2 ≡ 1
      → ((hash_slot shm c other).1 ≡ (hash_slot shm c key).1)
        × ((lookup_fine_grained_lock (hash_slot shm c other).0
              == lookup_fine_grained_lock (hash_slot shm c key).0)
            ≡ false)
  unfolding hash_slot lookup_fine_grained_lock
  hash_slot-lookup_fine_grained_lock far odd =
      (ap (λ n. n % c.nslots) far ∙ add-mod_right (shm.hash key) c.nslots, ground (arith, far, odd))
