-- ===== src/Startup/Preloading.antt =====
-- What a preload does to a valid cache, whatever the files are.
use mathlib.Core.Path.{subst}
use immutable_cache_pecl.Prelude.{
  ℕ, ◌+◌, ◌≡◌, refl, sym, ap, List, [], ◌∷◌, Option, none, some, Bool-cases, Option-cases, inl, inr,
}
use immutable_cache_pecl.Cache.Entry.{ZendString}
use immutable_cache_pecl.Cache.Locks.{Process, Grant}
use immutable_cache_pecl.Cache.State.{Cache, World, Shm, Persists, of_cache}
use immutable_cache_pecl.Cache.Operations.{store}
use immutable_cache_pecl.Cache.View.{IsValid}
use immutable_cache_pecl.Cache.Keeps.{IsSound}
use immutable_cache_pecl.Cache.Store.{no_memory, not_locked, present, stored, store-Outcome}
use immutable_cache_pecl.Cache.Immutable.{Reach, next, stores, Reach-Keeps}
use immutable_cache_pecl.Cache.Preload.{
  Files, preload, preload_from, load_data, key_of, is_data_file, file_of, data_unserialize,
}

-- A preload is a sequence of stores into a cache that stays there.
module _ {V R W S : Type 0} (shm : Shm V R W S) (laws : Persists shm) (grant : Grant)
    (files : Files V) (start : World R W S) (sound : IsSound shm start.cache) where
  pub record Goes (w : World R W S) : Type 0 where
    pub reach : Reach shm start w
    pub cache : Cache R W S
    pub exists : w.cache ≡ some cache

  store-cache :
      (c : Cache R W S) (p : Process) (key : ZendString) (val : V) (t : ℕ)
      → IsValid shm c
      → (d : Cache R W S) × ((store shm grant (of_cache (some c) p) key val t).1.cache ≡ some d)
  store-cache c p key val t valid = elim (store-Outcome shm laws grant c p key val t valid) [
    | no_memory failed e ↦ (_, ap (λ r. r.1.cache) e)
    | not_locked x made refused e ↦ (_, ap (λ r. r.1.cache) e)
    | present x f made granted there e ↦ (_, ap (λ r. r.1.cache) e)
    | stored x c' made granted absent after valid' sma serializer e ↦ (_, ap (λ r. r.1.cache) e)
  ]

  store-Goes :
      (w : World R W S) (key : ZendString) (val : V) (t : ℕ)
      → Goes w
      → Goes (store shm grant w key val t).1
  store-Goes w key val t g =
      let valid = subst (IsSound shm) g.exists (Reach-Keeps shm laws g.reach sound).sound in
      let (d, there) =
        subst
          (λ o.
            (d : Cache R W S) × ((store shm grant (of_cache o w.process) key val t).1.cache
              ≡ some d))
          (sym g.exists) (store-cache g.cache w.process key val t valid) in
      record { reach = next g.reach (stores grant key val t refl); cache = d; exists = there }

  load_data-Goes :
      (w : World R W S) (data_file : List ℕ) (t : ℕ)
      → Goes w
      → Goes (load_data shm grant files w data_file t).1
  unfolding load_data
  load_data-Goes w data_file t r = elim (Option-cases (key_of data_file)) [
    | inl off ↦ rw (load_data, off) r
    | inr (key, e) ↦ elim (Bool-cases (files.is_undef (data_unserialize files data_file))) [
      | inl undef ↦ rw (load_data, e, undef) r
      | inr value ↦
          rw (load_data, e, value)
            (store-Goes w (files.string_init key) (data_unserialize files data_file) t r)
    ]
  ]

  preload_from-Goes :
      (path : List ℕ) (time : ℕ → ℕ) (names : List (List ℕ)) (i : ℕ) (w : World R W S)
      → Goes w
      → Goes (preload_from shm grant files w path time i names).1
  unfolding preload_from
  preload_from-Goes path time [] i w r = r
  preload_from-Goes path time (name ∷ names) i w r = elim (Bool-cases (is_data_file name)) [
    | inl is ↦
        rw (preload_from, is)
          (preload_from-Goes path time names (i + 1) _
            (load_data-Goes w (file_of path name) (time i) r))
    | inr other ↦ rw (preload_from, other) (preload_from-Goes path time names (i + 1) w r)
  ]

  pub preload-Goes :
      (path : List ℕ) (time : ℕ → ℕ) (names : Option (List (List ℕ))) (w : World R W S)
      → Goes w
      → Goes (preload shm grant files w path time names).1
  unfolding preload
  preload-Goes path time none w r = r
  preload-Goes path time (some names) w r = preload_from-Goes path time names 0 w r
