-- ===== src/Cache/Agreement.antt =====
-- How the operations agree with one another: a test with a fetch, and a store with an earlier one.
use immutable_cache_pecl.Prelude.{
  ℕ, ◌≡◌, refl, ap, sym, ◌∙◌, Bool, true, false, List, Option, none, some,
}
use immutable_cache_pecl.Cache.Entry.{ZendString}
use immutable_cache_pecl.Cache.Locks.{Process, Grant, rlock}
use immutable_cache_pecl.Cache.State.{Cache, World, Shm, Persists, of_cache}
use immutable_cache_pecl.Cache.Operations.{store, fetch, exists}
use immutable_cache_pecl.Cache.Chains.{Frozen}
use immutable_cache_pecl.Cache.View.{IsValid}
use immutable_cache_pecl.Cache.Store.{no_memory, not_locked, present, stored, store-Outcome}
use immutable_cache_pecl.Cache.Keeps.{held_in, IsSound}
use immutable_cache_pecl.Cache.Immutable.{Reach, next, stores, held-Reach}
use immutable_cache_pecl.Cache.Fetch.{is_some, copy_out, fetch-view, exists-view}

module _ {V R W S : Type 0} (shm : Shm V R W S) where
  is_some-copy_out :
      (r : Option R) (o : Option (Frozen W)) → is_some shm (copy_out shm r o) ≡ is_some shm o
  is_some-copy_out r none = refl
  is_some-copy_out r (some f) = refl

  -- In a valid cache, if the lock of the key is granted, a test for a key returns true exactly if
  -- a fetch of it by the same process, at any time, is a hit.
  pub exists-fetch :
      (grant : Grant) (c : Cache R W S) (p : Process) (key : List ℕ) (t : ℕ)
      → IsValid shm c
      → (rlock grant (shm.hash key) p).0 ≡ true
      → (exists shm grant (of_cache (some c) p) key).0
        ≡ is_some shm (fetch shm grant (of_cache (some c) p) key t).0
  exists-fetch grant c p key t valid granted =
      exists-view shm grant c p key valid granted
      ∙ sym (
          ap (is_some shm) (fetch-view shm grant c p key valid granted t)
          ∙ is_some-copy_out c.serializer _)

  store-held_key :
      (laws : Persists shm) (grant : Grant) (o : Option (Cache R W S)) (p : Process)
      (key : ZendString) (val : V) (t : ℕ) (f : Frozen W)
      → IsSound shm o
      → held_in shm o key.val ≡ some f
      → (store shm grant (of_cache o p) key val t).0 ≡ false
  store-held_key laws grant none p key val t f sound there = cc
  store-held_key laws grant (some c) p key val t f sound there =
      elim (store-Outcome shm laws grant c p key val t sound) [
        | no_memory failed e ↦ ap (λ (r : Bool × World R W S). r.0) e
        | not_locked x made refused e ↦ ap (λ (r : Bool × World R W S). r.0) e
        | present x g made granted held e ↦ ap (λ (r : Bool × World R W S). r.0) e
        | stored x c' made granted absent after valid sma serializer e ↦ cc
      ]

  -- If persisting keeps an entry's key and statistics (`Persists`), and a sound world holds
  -- something under a key, then in every world reached from there a store under that key returns
  -- false, and leaves what was held.
  pub store-Reach :
      Persists shm
      → {w v : World R W S} → Reach shm w v
      → IsSound shm w.cache
      → (key : ZendString) (f : Frozen W) → held_in shm w.cache key.val ≡ some f
      → (grant : Grant) (val : V) (t : ℕ)
      → ((store shm grant v key val t).0 ≡ false)
        × (held_in shm (store shm grant v key val t).1.cache key.val ≡ some f)
  store-Reach laws {w} {v} reach sound key f there grant val t =
      let (sound', there') = held-Reach shm laws reach sound key.val f there in
      (
        store-held_key laws grant v.cache v.process key val t f sound' there',
        (held-Reach shm laws (next reach (stores grant key val t refl)) sound key.val f there).1,
      )
