-- ===== src/Primitives/Depth.antt =====
-- The lock calls of the cache as those of immutable_cache_lock.c: interruptions are blocked as often as
-- locks are held.
use immutable_cache_pecl.Prelude.{
  ◌+◌, ◌≡◌, ap, refl, Bool, true, false, ◌||◌, List, [], ◌∷◌, length, arith, Bool-cases, inl, inr,
}
use immutable_cache_pecl.Cache.Locks.{
  Lock, Grant, Process, same_lock, release_from, acquire, release,
}
use immutable_cache_pecl.Primitives.Posix.{Holding, lock_acquire, lock_release}

abbrev pub holds : Lock → List Lock → Bool
holds l [] = false
holds l (x ∷ xs) = same_lock l x || holds l xs

-- Lock calls of one process, side by side: `p` is what the cache sees of it, and `h` what the lock
-- functions do. Only a lock that is held is released.
pub data Calls (grant : Grant) (p : Process) (h : Holding) : Process → Holding → Type 0 where
  none_made : Calls grant p h p h
  acquires :
      {p' : Process} {h' : Holding} (l : Lock)
      → Calls grant p h p' h'
      → Calls grant p h (acquire grant l p').1 (lock_acquire grant l h').1
  releases :
      {p' : Process} {h' : Holding} (l : Lock)
      → Calls grant p h p' h'
      → holds l p'.held ≡ true
      → Calls grant p h (release l p') (lock_release l h')

pub record Agrees (p : Process) (h : Holding) : Type 0 where
  pub held : h.held ≡ p.held
  pub blocked : h.blocked ≡ length p.held

length-release_from :
    (l : Lock) (xs : List Lock) → holds l xs ≡ true → length (release_from l xs) + 1 ≡ length xs
length-release_from l [] i = cc
length-release_from l (x ∷ xs) i = elim (Bool-cases (same_lock l x)) [
  | inl here ↦ rw here (omega arith)
  | inr there ↦ rw there (omega (arith, length-release_from l xs (rw there at i)))
]

acquire-Agrees :
    (grant : Grant) (l : Lock) (p : Process) (h : Holding)
    → Agrees p h
    → Agrees (acquire grant l p).1 (lock_acquire grant l h).1
unfolding lock_acquire
acquire-Agrees grant l p h a = elim (Bool-cases (grant l p.held)) [
  | inl granted ↦ rw (a.held, granted) (record { held = refl; blocked = omega (arith, a.blocked) })
  | inr refused ↦ rw (a.held, refused) (record { held = refl; blocked = omega (arith, a.blocked) })
]

release-Agrees :
    (l : Lock) (p : Process) (h : Holding)
    → Agrees p h
    → holds l p.held ≡ true
    → Agrees (release l p) (lock_release l h)
unfolding lock_release
release-Agrees l p h a i = record {
  held = ap (release_from l) a.held;
  blocked = omega (arith, a.blocked, length-release_from l p.held i);
}

-- Over any lock calls of one process, granted or refused, in which only locks that are held are
-- released, the lock functions hold what the model of the cache's locks says, and interruptions
-- stay blocked as often as locks are held, if both are so at first.
pub Calls-Agrees :
    {grant : Grant} {p : Process} {h : Holding} {p' : Process} {h' : Holding}
    → Calls grant p h p' h'
    → Agrees p h
    → Agrees p' h'
Calls-Agrees none_made a = a
Calls-Agrees {grant} (acquires {p'} {h'} l c) a = acquire-Agrees grant l p' h' (Calls-Agrees c a)
Calls-Agrees (releases {p'} {h'} l c i) a = release-Agrees l p' h' (Calls-Agrees c a) i
