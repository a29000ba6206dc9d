-- ===== src/Cache/Balance.antt =====
-- Locks are given back: the lock and unlock calls of immutable_cache_cache.h in pairs, and the
-- exported operations.
use immutable_cache_pecl.Prelude.{ℕ, ◌%◌, ◌≡◌, true, false, ◌||◌, ◌∷◌, arith, ==_refl}
use immutable_cache_pecl.Cache.Locks.{
  sma_write, fine_write, Process, Grant, lookup_fine_grained_lock, wlock, wunlock, rlock, runlock,
  rlock_global, runlock_global,
}

-- While memory is protected, a process outside the operations cannot write to it.
abbrev pub IsQuiet : Process → Type 0
IsQuiet p = p.protect_memory ≡ true → p.writable ≡ false

-- A write lock that is granted is given back whole; one that is refused leaves nothing held.
pub wunlock-wlock :
    (grant : Grant) (h : ℕ) (p : Process)
    → IsQuiet p
    → ((wlock grant h p).0 ≡ true → wunlock h (wlock grant h p).1 ≡ p)
      × ((wlock grant h p).0 ≡ false → (wlock grant h p).1 ≡ p)
unfolding wlock wunlock
wunlock-wlock grant h p quiet = (ground (arith, ==_refl (h % 16), quiet), ground (arith, quiet))

module _ (grant : Grant) (p : Process) where
  pub runlock-rlock :
      (h : ℕ)
      → ((rlock grant h p).0 ≡ true → runlock h (rlock grant h p).1 ≡ p)
        × ((rlock grant h p).0 ≡ false → (rlock grant h p).1 ≡ p)
  unfolding rlock runlock
  runlock-rlock h = (ground (arith, ==_refl (h % 16)), ground arith)

  pub runlock_global-rlock_global :
      ((rlock_global grant p).0 ≡ true → runlock_global (rlock_global grant p).1 ≡ p)
      × ((rlock_global grant p).0 ≡ false → (rlock_global grant p).1 ≡ p)
  unfolding rlock_global runlock_global
  runlock_global-rlock_global = (ground arith, ground arith)

-- Outside of immutable_cache_entry, a granted write lock holds the lock of the segment and that
-- of the key on top of what was held, and makes protected memory writable.
pub wlock-held :
    (grant : Grant) (h : ℕ) (p : Process)
    → p.entry_level ≡ 0
    → (wlock grant h p).0 ≡ true
    → ((wlock grant h p).1.held ≡ fine_write (lookup_fine_grained_lock h) ∷ sma_write ∷ p.held)
      × ((wlock grant h p).1.writable ≡ (p.protect_memory || p.writable))
unfolding wlock
wlock-held grant h p level granted = (ground arith, ground arith)
