-- ===== src/Primitives/Examples.antt =====
-- Tests of the locks: two processes at a spin lock, and lock calls of one process.
use immutable_cache_pecl.Prelude.{ℕ, true, false, [], ◌∷◌, ◌≡◌, refl, arith}
use immutable_cache_pecl.Cache.Locks.{sma_write, fine_write, Process, Grant}
use immutable_cache_pecl.Primitives.Posix.{Holding, lock_acquire, lock_release}
use immutable_cache_pecl.Primitives.Depth.{none_made, acquires, releases, Agrees, Calls-Agrees}
use immutable_cache_pecl.Primitives.Spin.{
  create, lock_try, inside, outside, getting, enter, got, System, update, Step, pick, Reach, start,
  later, Reach-exclusive, Reach-enters,
}

-- process 0 is in the loop
abbrev waiting : System
waiting = record { state = 0; pc = update (λ i. outside) 0 getting }

waiting-Reach : Reach waiting
unfolding create
waiting-Reach = later start (pick 0 enter)

-- and then holds the lock
abbrev taken : System
taken = record { state = 1; pc = update waiting.pc 0 inside }

taken-Reach : Reach taken
unfolding lock_try
taken-Reach = later waiting-Reach (pick 0 (got refl))

Reach-exclusive_example : ◌≡◌ {A = ℕ} 0 0
Reach-exclusive_example = Reach-exclusive 0 0 taken-Reach refl refl

Reach-enters_example : Step waiting taken
Reach-enters_example = Reach-enters 0 waiting-Reach (λ j. ground arith) refl

abbrev process : Process
process = record { entry_level = 0; protect_memory = true; writable = false; held = [] }

abbrev holding : Holding
holding = record { held = []; blocked = 0 }

abbrev always : Grant
always l held = true

Calls-Agrees_example :
    Agrees
      (record process { held = fine_write 3 ∷ [] })
      (record { held = fine_write 3 ∷ []; blocked = 1 })
unfolding lock_acquire lock_release
Calls-Agrees_example =
    Calls-Agrees {grant = always} {p = process} {h = holding}
      (releases sma_write (acquires (fine_write 3) (acquires sma_write none_made)) refl)
      (record { held = refl; blocked = refl })
