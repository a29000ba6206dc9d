-- ===== src/Signals/Rehandled.antt =====
-- After the handlers are set, a signal still reaches the handler that was there before.
use immutable_cache_pecl.Prelude.{
  ℕ, true, false, List, [], ◌∷◌, ◌++◌, Option, none, some, ◌==◌, ==_iff, if◌then◌else◌, ◌≡◌, ◌≢◌,
  refl, ap, ◌∙◌, arith, Bool-cases, inl, inr, ◌<◌, ==_symm, ◌⊎◌, Option-cases,
}
use immutable_cache_pecl.Sma.Distinct.{has}
use immutable_cache_pecl.Sma.Setup.{State, sma_detach}
use immutable_cache_pecl.Signals.{
  core_unmap, is_fixed, Action, Os, IsOs, Entry, Call, call_of, with_siginfo, plain, SignalInfo,
  rehandle_from, rehandle_signal, is_core_unmap, is_custom, fresh_action, register_action,
  register_signal, register_all, core_signals, set_signals, Event, kill, calls, unmaps,
  core_unmap_handler,
}

-- the calls that the handler of an action would have had
abbrev pub previous : Action → ℕ → List Call
previous a signo =
    if is_custom a.handler
    then (if a.siginfo then with_siginfo a.handler signo else plain a.handler signo) ∷ []
    else []

-- no entry is for the signal
abbrev IsFree : ℕ → List Entry → Type 0
IsFree n [] = Unit {0}
IsFree n (e ∷ es) = (e.signo ≢ n) × IsFree n es

IsFree-append :
    (n : ℕ) (es : List Entry) (e : Entry) → IsFree n es → e.signo ≢ n → IsFree n (es ++ e ∷ [])
IsFree-append n [] e f ne = (ne, tt)
IsFree-append n (x ∷ es) e f ne = (f.0, IsFree-append n es e f.1 ne)

rehandle-free : (current n : ℕ) (es : List Entry) → IsFree n es → rehandle_from current es n ≡ []
unfolding rehandle_from
rehandle-free current n [] f = refl
rehandle-free current n (e ∷ es) f = ground (arith, rehandle-free e.signo n es f.1)

rehandle-other :
    (current n : ℕ) (es : List Entry) (e : Entry)
    → e.signo ≢ n
    → rehandle_from current (es ++ e ∷ []) n ≡ rehandle_from current es n
unfolding rehandle_from
rehandle-other current n [] e ne = ground arith
rehandle-other current n (x ∷ es) e ne = ground (arith, rehandle-other x.signo n es e ne)

rehandle-new :
    (current n : ℕ) (es : List Entry) (e : Entry)
    → IsFree n es
    → current ≢ n
    → e.signo ≡ n
    → rehandle_from current (es ++ e ∷ []) n ≡ call_of e n ∷ []
unfolding rehandle_from
rehandle-new current n [] e f c same = ground arith
rehandle-new current n (x ∷ es) e f c same = ground (arith, rehandle-new x.signo n es e f.1)

module _ {S : Type 0} (os : Os S) (laws : IsOs os) (n : ℕ) (pos : 0 < n)
    (settable : is_fixed n ≡ false) (act : Action) where
  -- before and after the registration of the signal
  abbrev Before : SignalInfo → S → Type 0
  Before info s = (os.query s n ≡ some act) × IsFree n info

  abbrev pub After : SignalInfo → S → Type 0
  After info s =
      (a : Action) × (os.query s n ≡ some a)
      × (a.handler ≡ core_unmap)
      × (rehandle_signal info n ≡ previous act n)

  action-Before :
      (info : SignalInfo) (s : S) (m : ℕ) (sa : Action)
      → m ≢ n
      → Before info s
      → Before (register_action os info s m sa).0 (register_action os info s m sa).1
  unfolding register_action
  action-Before info s m sa ne (q, f) = elim (Bool-cases (is_core_unmap sa.handler)) [
    | inl ours ↦ rw (ours) (q, f)
    | inr theirs ↦ elim (Bool-cases (is_custom sa.handler)) [
      | inl other ↦
          rw (theirs, other)
            (
              laws.others s m n (record sa { handler = core_unmap }) ne ∙ q,
              IsFree-append n info _ f ne,
            )
      | inr none_yet ↦ rw (theirs, none_yet) (laws.others s m n fresh_action ne ∙ q, f)
    ]
  ]

  -- another signal is registered
  action-After :
      (info : SignalInfo) (s : S) (m : ℕ) (sa : Action)
      → m ≢ n
      → After info s
      → After (register_action os info s m sa).0 (register_action os info s m sa).1
  unfolding register_action rehandle_signal
  action-After info s m sa ne (a, q, ours, calls) = elim (Bool-cases (is_core_unmap sa.handler)) [
    | inl mine ↦ rw mine (a, q, ours, calls)
    | inr theirs ↦ elim (Bool-cases (is_custom sa.handler)) [
      | inl other ↦
          rw (theirs, other)
            (
              a,
              laws.others s m n (record sa { handler = core_unmap }) ne ∙ q,
              ours,
              rehandle-other 0 n info
                    (record { signo = m; siginfo = sa.siginfo; handler = sa.handler }) ne
                  ∙ calls,
            )
      | inr standard ↦ rw (theirs, standard) (a, laws.others s m n fresh_action ne ∙ q, ours, calls)
    ]
  ]

  -- the signal itself is registered
  action-new :
      (info : SignalInfo) (s : S)
      → is_core_unmap act.handler ≡ false
      → Before info s
      → After (register_action os info s n act).0 (register_action os info s n act).1
  unfolding register_action rehandle_signal
  action-new info s theirs (q, f) = elim (Bool-cases (is_custom act.handler)) [
    | inl other ↦
        let a : Action = record act { handler = core_unmap } in
        let e : Entry = record { signo = n; siginfo = act.siginfo; handler = act.handler } in
        let (b, there, ours, style) = laws.installed s n a (laws.accepts s n act a settable q) in
        rw (theirs, other) (b, there, ours, rehandle-new 0 n info e f (omega arith) refl)
    | inr standard ↦
        let (b, there, ours, style) =
          laws.installed s n fresh_action (laws.accepts s n act fresh_action settable q) in
        rw (theirs, standard) (b, there, ours, rehandle-free 0 n info f)
  ]

  signal-After :
      (info : SignalInfo) (s : S) (m : ℕ)
      → After info s
      → After (register_signal os info s m).1 (register_signal os info s m).2
  unfolding register_signal
  signal-After info s m (a, q, ours, calls) = elim (Bool-cases (m == n)) [
    | inl same ↦
        let e : os.query s m ≡ some a = ap (os.query s) ((==_iff m n).0 same) ∙ q in
        rw (register_signal, e, register_action, ours) (a, q, ours, calls)
    | inr ne ↦ elim (Option-cases (os.query s m)) [
      | inl e ↦ rw (register_signal, e) (a, q, ours, calls)
      | inr (sa, e) ↦
          rw (register_signal, e) (action-After info s m sa (ground arith) (a, q, ours, calls))
    ]
  ]

  signal-Before :
      (info : SignalInfo) (s : S) (m : ℕ)
      → is_core_unmap act.handler ≡ false
      → Before info s
      → (After (register_signal os info s m).1 (register_signal os info s m).2)
        ⊎ (((m == n) ≡ false)
            × Before (register_signal os info s m).1 (register_signal os info s m).2)
  unfolding register_signal
  signal-Before info s m theirs (q, f) = elim (Bool-cases (m == n)) [
    | inl same ↦
        let here : m ≡ n = (==_iff m n).0 same in
        let e : os.query s m ≡ some act = ap (os.query s) here ∙ q in
        inl (rw (register_signal, e, here) (action-new info s theirs (q, f)))
    | inr ne ↦ elim (Option-cases (os.query s m)) [
      | inl e ↦ inr (ne, rw (register_signal, e) (q, f))
      | inr (sa, e) ↦
          inr (ne, rw (register_signal, e) (action-Before info s m sa (ground arith) (q, f)))
    ]
  ]

  all-After :
      (signals : List ℕ) (info : SignalInfo) (s : S)
      → After info s
      → After (register_all os signals info s).0 (register_all os signals info s).1
  unfolding register_all
  all-After [] info s a = a
  all-After (m ∷ signals) info s a = all-After signals _ _ (signal-After info s m a)

  all-Before :
      (signals : List ℕ) (info : SignalInfo) (s : S)
      → is_core_unmap act.handler ≡ false
      → has n signals ≡ true
      → Before info s
      → After (register_all os signals info s).0 (register_all os signals info s).1
  unfolding register_all
  all-Before [] info s theirs i b = cc
  all-Before (m ∷ signals) info s theirs i b = elim (signal-Before info s m theirs b) [
    | inl a ↦ all-After signals _ _ a
    | inr (ne, b') ↦ all-Before signals _ _ theirs (ground (arith, ==_symm n m)) b'
  ]

  set_signals-After :
      (s : S)
      → is_core_unmap act.handler ≡ false
      → has n core_signals ≡ true
      → os.query s n ≡ some act
      → After (set_signals os true [] s).0 (set_signals os true [] s).1
  unfolding set_signals
  set_signals-After s theirs i q = all-Before core_signals [] s theirs i (q, tt)

-- the signals that are set are not the fixed ones
core_signals-settable : (n : ℕ) → has n core_signals ≡ true → is_fixed n ≡ false
core_signals-settable n i = ground arith

-- what the handler does about the shared memory
abbrev pub detached : Option State → List Event
detached none = []
detached (some st) = unmaps (sma_detach st).0

-- If sigaction behaves as its manual says, no handler is recorded, and a positive signal of the
-- list has an action whose handler is not the one of the extension, then after the handlers are
-- set with coredump_unmap on, that signal has the handler of the extension, which unmaps all
-- segments if there is an allocator, then calls the handler that was there before, in its style,
-- if it was a function, and then sends the signal again.
pub core_unmap_handler-set_signals :
    {S : Type 0} (os : Os S) (laws : IsOs os) (s : S) (st : Option State) (n : ℕ) (act : Action)
    → 0 < n
    → is_core_unmap act.handler ≡ false
    → has n core_signals ≡ true
    → os.query s n ≡ some act
    → (a : Action) × (os.query (set_signals os true [] s).1 n ≡ some a)
      × (a.handler ≡ core_unmap)
      × ((core_unmap_handler st (set_signals os true [] s).0 n).0
          ≡ detached st ++ calls (previous act n) ++ kill n ∷ [])
unfolding core_unmap_handler
core_unmap_handler-set_signals os laws s none n act pos theirs i q =
    let (a, installed, ours, e) =
      set_signals-After os laws n pos (core_signals-settable n i) act s theirs i q in
    (a, installed, ours, ap (λ cs. calls cs ++ kill n ∷ []) e)
core_unmap_handler-set_signals os laws s (some st) n act pos theirs i q =
    let (a, installed, ours, e) =
      set_signals-After os laws n pos (core_signals-settable n i) act s theirs i q in
    (a, installed, ours, ap (λ cs. unmaps (sma_detach st).0 ++ calls cs ++ kill n ∷ []) e)
