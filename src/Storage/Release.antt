-- ===== src/Storage/Release.antt =====
-- The operations of the cache over the code of immutable_cache_persist.c give back what they take.
use immutable_cache_pecl.Prelude.{
  ℕ, ◌≡◌, refl, Bool, true, false, List, Option, ◌==◌, Bool-cases, Option-cases, inl, inr, arith,
}
use immutable_cache_pecl.Cache.Entry.{Entry}
use immutable_cache_pecl.Cache.Locks.{Process, Grant, protect}
use immutable_cache_pecl.Cache.State.{World}
use immutable_cache_pecl.Cache.Balance.{IsQuiet}
use immutable_cache_pecl.Cache.Release.{GivesBack, process-Step}
use immutable_cache_pecl.Cache.Immutable.{Step}
use immutable_cache_pecl.Persist.Value.{Zval}
use immutable_cache_pecl.Persist.Calc.{Php}
use immutable_cache_pecl.Persist.Copy.{Shared}
use immutable_cache_pecl.Persist.Entries.{prepare, persist_process}
use immutable_cache_pecl.Storage.{Aside, shm, hashed_key}

-- Taking and giving back the lock of a segment leaves a quiet process as it was.
pub record IsAside {S : Type 0} (aside : Aside S) : Type 0 where
  pub allocated :
      (grant : Grant) (s : S) (size : ℕ) (p : Process)
      → IsQuiet p
      → aside.malloc_process grant s size p ≡ p
  pub deallocated :
      (grant : Grant) (s : S) (address : ℕ) (p : Process)
      → IsQuiet p
      → aside.free_process grant s address p ≡ p

-- memory that is made writable and protected again
protect-protect : (p : Process) → IsQuiet p → protect true (protect false p) ≡ p
protect-protect p quiet = ground (arith, quiet)

module _ {R S : Type 0} (php : Php R) (contains : ℕ → Bool) (malloc : S → ℕ → ℕ × S)
    (free : S → ℕ → S) (find : List ℕ → Option R) (aside : Aside S) (laws : IsAside aside) where
  persist-GivesBack :
      (grant : Grant) (serializer : Option R) (s : S) (orig : Entry Zval) (p : Process)
      → IsQuiet p
      → persist_process php serializer contains malloc (aside.malloc_process grant) s orig p ≡ p
  unfolding persist_process
  persist-GivesBack grant serializer s orig p quiet =
      elim (Option-cases (prepare php serializer contains orig)) [
        | inl refused ↦ rw (refused, persist_process) refl
        | inr (ctxt, ready) ↦
            let same = laws.allocated grant s ctxt.size p quiet in
            elim (Bool-cases ((malloc s ctxt.size).0 == 0)) [
              | inl failed ↦ rw (ready, persist_process, same, failed) refl
              | inr made ↦ rw (ready, persist_process, same, made) (protect-protect p quiet)
            ]
      ]

  whole-GivesBack : GivesBack (shm php contains malloc free find aside)
  whole-GivesBack = record {
    persisted = λ grant s r orig p quiet.
        persist-GivesBack grant r s (hashed_key php contains orig) p quiet;
    freed = λ grant s e p quiet. laws.deallocated grant s e.addr p quiet;
  }

  -- If allocating and freeing give back the lock and the write permission that they take, then
  -- every exported operation of a cache over the code of immutable_cache_persist.c, on every
  -- branch and whatever the system answers to its lock calls, leaves the process with the locks
  -- and the write permission it had, if the process could not write to protected memory
  -- beforehand.
  pub Step-process :
      {w v : World R Shared S}
      → Step (shm php contains malloc free find aside) w v
      → IsQuiet w.process
      → v.process ≡ w.process
  Step-process step quiet =
      process-Step (shm php contains malloc free find aside) whole-GivesBack step quiet
