-- ===== src/Primitives/Spin.antt =====
-- The spin lock of immutable_cache_lock.c (IMMUTABLE_CACHE_SPIN_LOCK), which processes take in any
-- interleaving of their exchanges.
use mathlib.Core.Path.{subst}
use immutable_cache_pecl.Prelude.{
  ℕ, Bool, ◌==◌, if◌then◌else◌, ◌≡◌, ◌≢◌, ◌≤◌, ◌⊎◌, inl, inr, refl, sym, arith,
}

-- `immutable_cache_lock_create`, whose result is not defined: it has no return statement
unfoldable pub create : ℕ
create = 0

-- `immutable_cache_lock_try`: the exchange of the state with 1, and the state before it
unfoldable pub lock_try : ℕ → ℕ × ℕ
lock_try state = (state, 1)

-- `immutable_cache_lock_release`: the exchange of the state with 0, and whether it was 0
unfoldable pub lock_release : ℕ → Bool × ℕ
lock_release state = (state == 0, 0)

-- Where a process is: outside of the lock, in the loop of `immutable_cache_lock_get`, or between
-- its return and the release. A lock for reading and one for writing are the same.
pub data Pc : Type 0 where
  outside getting inside : Pc

-- One step of one process.
pub data Move (state : ℕ) : Pc → ℕ → Pc → Type 0 where
  enter : Move state outside state getting
  again : (lock_try state).0 ≢ 0 → Move state getting (lock_try state).1 getting
  got : (lock_try state).0 ≡ 0 → Move state getting (lock_try state).1 inside
  leave : Move state inside (lock_release state).1 outside

pub record System : Type 0 where
  pub state : ℕ
  pub pc : ℕ → Pc

abbrev pub update : (ℕ → Pc) → ℕ → Pc → ℕ → Pc
update pc i p j = if i == j then p else pc j

pub data Step (s : System) : System → Type 0 where
  pick :
      (i : ℕ) {state : ℕ} {p : Pc}
      → Move s.state (s.pc i) state p
      → Step s (record { state = state; pc = update s.pc i p })

abbrev pub init : System
init = record { state = create; pc = λ _. outside }

pub data Reach : System → Type 0 where
  start : Reach init
  later : {s t : System} → Reach s → Step s t → Reach t

-- The state is 0 or 1, at most one process is inside, and there is one if the state is not 0.
pub record IsExclusive (state : ℕ) (pc : ℕ → Pc) : Type 0 where
  pub word : state ≤ 1
  pub free : state ≡ 0 → (i : ℕ) → pc i ≢ inside
  pub one : (i j : ℕ) → pc i ≡ inside → pc j ≡ inside → i ≡ j
  pub holder : (state ≡ 0) ⊎ ((i : ℕ) × (pc i ≡ inside))

-- A move of process `i` from `p`.
Move-IsExclusive :
    {state state' : ℕ} {pc : ℕ → Pc} (i : ℕ) {p p' : Pc}
    → pc i ≡ p
    → Move state p state' p'
    → IsExclusive state pc
    → IsExclusive state' (update pc i p')
unfolding lock_try lock_release
Move-IsExclusive i at enter inv = record {
  word = inv.word;
  free = λ z j. ground (arith, inv.free z j);
  one = λ j k. ground (arith, inv.one j k);
  holder = elim inv.holder [ inl z ↦ inl z | inr (j, h) ↦ inr (j, ground (arith)) ];
}
Move-IsExclusive i at (again busy) inv = record {
  word = omega arith;
  free = λ z j. ground (arith);
  one = λ j k. ground (arith, inv.one j k);
  holder = elim inv.holder [ inl z ↦ absurd (busy z) | inr (j, h) ↦ inr (j, ground (arith)) ];
}
Move-IsExclusive i at (got z) inv = record {
  word = omega arith;
  free = λ z j. ground (arith);
  one = λ j k. ground (arith, inv.free z j, inv.free z k);
  holder = inr (i, ground arith);
}
Move-IsExclusive i at leave inv = record {
  word = omega arith;
  free = λ z j. ground (arith, inv.one i j);
  one = λ j k. ground (arith, inv.one j k);
  holder = inl refl;
}

Reach-IsExclusive : {s : System} → Reach s → IsExclusive s.state s.pc
unfolding create
Reach-IsExclusive start = record {
  word = omega arith;
  free = λ z i. cc;
  one = λ i j. cc;
  holder = inl refl;
}
Reach-IsExclusive (later r (pick i m)) = Move-IsExclusive i refl m (Reach-IsExclusive r)

-- However processes interleave their exchanges on a spin lock, two that are inside are the same.
pub Reach-exclusive : {s : System} (i j : ℕ) → Reach s → s.pc i ≡ inside → s.pc j ≡ inside → i ≡ j
Reach-exclusive i j r = (Reach-IsExclusive r).one i j

-- Whenever no process is inside, any process in the loop of a spin lock gets inside by its next
-- exchange.
pub Reach-enters :
    {s : System} (i : ℕ)
    → Reach s
    → ((j : ℕ) → s.pc j ≢ inside)
    → s.pc i ≡ getting
    → Step s (record { state = 1; pc = update s.pc i inside })
unfolding lock_try
Reach-enters {s} i r empty waits =
    let free : s.state ≡ 0 = elim (Reach-IsExclusive r).holder [
      | inl z ↦ z
      | inr (j, h) ↦ absurd (empty j h)
    ] in
    pick i (subst (λ p. Move s.state p 1 inside) (sym waits) (got free))
