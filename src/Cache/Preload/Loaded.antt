-- ===== src/Cache/Preload/Loaded.antt =====
-- After a preload the cache holds something under the name of every data file.
use immutable_cache_pecl.Prelude.{
  ℕ, ◌≡◌, Bool, true, false, ◌||◌, List, [], ◌∷◌, Option, some, same,
}
use immutable_cache_pecl.Cache.Locks.{Process, Grant}
use immutable_cache_pecl.Cache.State.{Cache, World, Shm, Persists, of_cache}
use immutable_cache_pecl.Cache.Chains.{Frozen}
use immutable_cache_pecl.Cache.View.{view, IsValid}
use immutable_cache_pecl.Cache.Preload.{Files, preload_from}
use immutable_cache_pecl.Cache.Preload.Stored.{IsPlentiful}

abbrev pub listed : List ℕ → List (List ℕ) → Bool
listed name [] = false
listed name (x ∷ xs) = same x name || listed name xs

module _ {V R W S : Type 0} (shm : Shm V R W S) (laws : Persists shm) (grant : Grant)
    (files : Files V) (serializer : Option R) (room : ℕ → S → Type 0)
    (plenty : IsPlentiful shm grant files serializer room) where
  module _ (path : List ℕ) (time : ℕ → ℕ) where
    abbrev from : World R W S → ℕ → List (List ℕ) → Bool × World R W S
    from w i names = preload_from shm grant files w path time i names

-- What a preload leaves: a valid cache that holds what it held, and something under the key.
pub record Preloaded {V R W S : Type 0} (shm : Shm V R W S) (c : Cache R W S) (base : List ℕ)
    (r : Bool × World R W S) : Type 0 where
  pub cache : Cache R W S
  pub process : Process
  pub eq : r ≡ (true, of_cache (some cache) process)
  pub valid : IsValid shm cache
  pub kept : (q : List ℕ) (f : Frozen W) → view shm c q ≡ some f → view shm cache q ≡ some f
  pub held : (f : Frozen W) × (view shm cache base ≡ some f)
