-- ===== src/Functions/Names.antt =====
-- What `immutable_cache_exists` answers for an array, by the abstract view of the cache.
use immutable_cache_pecl.Prelude.{
  ℕ, ◌≡◌, refl, ap, true, List, [], ◌∷◌, Option, none, some, if◌then◌else◌,
}
use immutable_cache_pecl.Cache.Locks.{Process, Grant, rlock}
use immutable_cache_pecl.Cache.State.{Cache, Shm, of_cache}
use immutable_cache_pecl.Cache.Operations.{exists}
use immutable_cache_pecl.Cache.View.{view, IsValid}
use immutable_cache_pecl.Cache.Balance.{runlock-rlock}
use immutable_cache_pecl.Cache.Fetch.{is_some, exists-view}
use immutable_cache_pecl.Functions.{exists_many, exists_function, many, present_keys}

module _ {V R W S : Type 0} (shm : Shm V R W S) (grant : Grant) (c : Cache R W S) (p : Process)
    (valid : IsValid shm c)
    (granted : (key : List ℕ) → (rlock grant (shm.hash key) p).0 ≡ true) where
  -- the keys that the view has, as often as they are asked for
  abbrev pub in_view : List (Option (List ℕ)) → List (List ℕ)
  in_view [] = []
  in_view (none ∷ ks) = in_view ks
  in_view (some key ∷ ks) = if is_some shm (view shm c key) then key ∷ in_view ks else in_view ks

  exists-world :
      (key : List ℕ) → (exists shm grant (of_cache (some c) p) key).1 ≡ of_cache (some c) p
  unfolding exists
  exists-world key =
      rw (granted key, exists)
        (ap (of_cache (some c)) ((runlock-rlock grant p (shm.hash key)).0 (granted key)))

  exists_many-in_view :
      (ks : List (Option (List ℕ)))
      → (exists_many shm grant ks (of_cache (some c) p)).0 ≡ in_view ks
  unfolding exists_many
  exists_many-in_view [] = refl
  exists_many-in_view (none ∷ ks) = exists_many-in_view ks
  exists_many-in_view (some key ∷ ks) =
      rw
        (
          exists-world key,
          exists-view shm grant c p key valid (granted key),
          exists_many-in_view ks,
        )
        refl

  -- If the locks of all keys are granted, immutable_cache_exists of an array answers for a valid
  -- cache with the strings of the array that the view holds, in their order.
  pub exists_function-in_view :
      (ks : List (Option (List ℕ)))
      → (exists_function shm grant (many ks) (of_cache (some c) p)).0 ≡ present_keys (in_view ks)
  unfolding exists_function
  exists_function-in_view ks = ap present_keys (exists_many-in_view ks)
