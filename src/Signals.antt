-- ===== src/Signals.antt =====
-- immutable_cache_signal.c: the handlers that detach the process from shared memory when a signal is
-- about to end it, and call what was installed before.
use immutable_cache_pecl.Prelude.{
  ℕ, suc, Bool, true, false, List, [], ◌∷◌, ◌++◌, Option, none, some, ◌==◌, if◌then◌else◌, not,
  ◌||◌, ◌≡◌, ◌≢◌,
}
use immutable_cache_pecl.Sma.Setup.{State, sma_detach}
pub mod Rehandled
mod Examples

-- `SIG_ERR`, `SIG_DFL`, `SIG_IGN`, `immutable_cache_core_unmap`, or another function
pub data Handler : Type 0 where
  sig_err sig_dfl sig_ign core_unmap : Handler
  custom : ℕ → Handler

-- `struct sigaction`: of its flags, SA_SIGINFO, SA_RESETHAND, and the rest.
pub record Action : Type 0 where
  pub handler : Handler
  pub siginfo : Bool
  pub resethand : Bool
  pub other_flags : ℕ
  pub mask : List ℕ

-- `sigaction` of the operating system, whose state is an `S`: what is installed for a signal, if it
-- can be asked for, and the installation of an action, with whether it was accepted.
pub record Os (S : Type 0) : Type 0 where
  pub query : S → ℕ → Option Action
  pub install : S → ℕ → Action → Bool × S

-- SIGKILL and SIGSTOP, as Linux numbers them: their actions can be asked for, and cannot be changed.
abbrev pub is_fixed : ℕ → Bool
is_fixed signo = signo == 9 || signo == 19

-- What its manual says of it.
pub record IsOs {S : Type 0} (os : Os S) : Type 0 where
  -- the mask and the flags that are kept may be others: SIGKILL and SIGSTOP are taken out of a mask
  pub installed :
      (s : S) (signo : ℕ) (a : Action)
      → (os.install s signo a).0 ≡ true
      → (b : Action) × (os.query (os.install s signo a).1 signo ≡ some b)
        × (b.handler ≡ a.handler)
        × (b.siginfo ≡ a.siginfo)
  pub others :
      (s : S) (signo n : ℕ) (a : Action)
      → signo ≢ n
      → os.query (os.install s signo a).1 n ≡ os.query s n
  -- any other signal that has an action can be given another one
  pub accepts :
      (s : S) (signo : ℕ) (a b : Action)
      → is_fixed signo ≡ false
      → os.query s signo ≡ some a
      → (os.install s signo b).0 ≡ true

-- `immutable_cache_signal_entry_t`
pub record Entry : Type 0 where
  pub signo : ℕ
  pub siginfo : Bool
  pub handler : Handler

-- The call of a handler, in one of two styles.
pub data Call : Type 0 where
  with_siginfo : Handler → ℕ → Call
  plain : Handler → ℕ → Call

abbrev pub call_of : Entry → ℕ → Call
call_of e signo = if e.siginfo then with_siginfo e.handler signo else plain e.handler signo

-- `immutable_cache_signal_info.prev`; `installed` is its length.
abbrev pub SignalInfo : Type 0
SignalInfo = List Entry

-- The loop of `immutable_cache_rehandle_signal` over the entries that are left; `current` is
-- `p_sig.signo`.
unfoldable pub rehandle_from : ℕ → List Entry → ℕ → List Call
rehandle_from current [] signo = []
rehandle_from current (e ∷ es) signo =
    let rest = rehandle_from e.signo es signo in
    if current == signo then [] else if e.signo == signo then call_of e signo ∷ rest else rest

unfoldable pub rehandle_signal : SignalInfo → ℕ → List Call
unfolding rehandle_from
rehandle_signal info signo = rehandle_from 0 info signo

-- What `immutable_cache_core_unmap` does outside of the process's own memory.
pub data Event : Type 0 where
  unmap : ℕ → Event
  call : Call → Event
  kill : ℕ → Event

abbrev pub unmaps : List ℕ → List Event
unmaps [] = []
unmaps (a ∷ as') = unmap a ∷ unmaps as'

abbrev pub calls : List Call → List Event
calls [] = []
calls (c ∷ cs) = call c ∷ calls cs

-- `immutable_cache_core_unmap`; there may be no cache, and so no allocator.
unfoldable pub core_unmap_handler : Option State → SignalInfo → ℕ → List Event × Option State
unfolding sma_detach rehandle_signal
core_unmap_handler none info signo = (calls (rehandle_signal info signo) ++ kill signo ∷ [], none)
core_unmap_handler (some st) info signo =
    let (addresses, st') = sma_detach st in
    (unmaps addresses ++ calls (rehandle_signal info signo) ++ kill signo ∷ [], some st')

abbrev pub is_core_unmap : Handler → Bool
is_core_unmap core_unmap = true
is_core_unmap _ = false

abbrev pub is_custom : Handler → Bool
is_custom sig_err = false
is_custom sig_dfl = false
is_custom sig_ign = false
is_custom _ = true

-- what is installed in place of the default action
abbrev pub fresh_action : Action
fresh_action = record {
  handler = core_unmap;
  siginfo = false;
  resethand = true;
  other_flags = 0;
  mask = [];
}

-- `immutable_cache_register_signal` with the handler `immutable_cache_core_unmap`, where SA_ONESHOT or
-- SA_RESETHAND is defined, once `sigaction` has told of `sa`. A refused installation only gives a
-- warning.
unfoldable pub register_action : {S : Type 0} → Os S → SignalInfo → S → ℕ → Action → SignalInfo × S
register_action os info s signo sa =
    if is_core_unmap sa.handler
    then (info, s)
    else if is_custom sa.handler
    then (
      info ++ record { signo = signo; siginfo = sa.siginfo; handler = sa.handler } ∷ [],
      (os.install s signo (record sa { handler = core_unmap })).1,
    )
    else (info, (os.install s signo fresh_action).1)

-- The first part says whether the result is SUCCESS.
unfoldable pub register_signal : {S : Type 0} → Os S → SignalInfo → S → ℕ → Bool × SignalInfo × S
unfolding register_action
register_signal os info s signo = elim (os.query s signo) [
  | none ↦ (false, info, s)
  | some sa ↦ let (info', s') = register_action os info s signo sa in (true, info', s')
]

unfoldable pub register_all : {S : Type 0} → Os S → List ℕ → SignalInfo → S → SignalInfo × S
unfolding register_signal
register_all os [] info s = (info, s)
register_all os (signo ∷ signals) info s =
    let (done, info', s') = register_signal os info s signo in register_all os signals info' s'

-- SIGSEGV, SIGABRT, SIGFPE, SIGILL, SIGBUS, SIGIOT, SIGQUIT, SIGSYS, SIGTRAP, SIGXCPU and SIGXFSZ as
-- Linux numbers them. SIGABORT and SIGEMT are not defined there, and IMMUTABLE_CACHE_CLEAR_SIGNAL is
-- not either.
abbrev pub core_signals : List ℕ
core_signals = 11 ∷ 6 ∷ 8 ∷ 4 ∷ 7 ∷ 6 ∷ 3 ∷ 31 ∷ 5 ∷ 24 ∷ 25 ∷ []

unfoldable pub set_signals : {S : Type 0} → Os S → Bool → SignalInfo → S → SignalInfo × S
unfolding register_all
set_signals os coredump_unmap [] s =
    if coredump_unmap then register_all os core_signals [] s else ([], s)
set_signals os coredump_unmap info s = (info, s)

-- `immutable_cache_shutdown_signals`
unfoldable pub shutdown_signals : SignalInfo → SignalInfo
shutdown_signals info = []
