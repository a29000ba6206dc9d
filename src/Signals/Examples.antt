-- ===== src/Signals/Examples.antt =====
-- Tests of the signal handlers, over an operating system that keeps a table of actions.
use immutable_cache_pecl.Prelude.{
  ℕ, Bool, true, false, not, ◌&&◌, [], ◌∷◌, Option, none, some, ◌==◌, if◌then◌else◌, ◌≡◌, refl,
  arith, ==_refl,
}
use immutable_cache_pecl.Signals.{
  sig_dfl, is_fixed, core_unmap, custom, Action, Os, IsOs, plain, call, kill, core_unmap_handler,
  set_signals,
}
use immutable_cache_pecl.Signals.Rehandled.{core_unmap_handler-set_signals}

abbrev Table : Type 0
Table = ℕ → Option Action

-- Only a signal with an action accepts another one, and SIGKILL and SIGSTOP do not.
abbrev known : Option Action → Bool
known none = false
known (some a) = true

abbrev put : Table → ℕ → Action → Table
put s n a m = if n == m then some a else s m

abbrev table_os : Os Table
table_os = record {
  query = λ s n. s n;
  install = λ s n a.
      if known (s n) && not (is_fixed n)
      then (true, put s n (record a { mask = [] }))
      else (false, s);
}

table_os-IsOs : IsOs table_os
table_os-IsOs = record {
  installed = λ s n a h. (record a { mask = [] }, ground (arith, ==_refl n), refl, refl);
  others = λ s n m a ne. ground arith;
  accepts = λ s n a b free e. rw (e, free);
}

-- handler 42 for SIGSEGV, in the plain style, and the default for all others
abbrev segv_action : Action
segv_action = record {
  handler = custom 42;
  siginfo = false;
  resethand = false;
  other_flags = 0;
  mask = [];
}

abbrev table : Table
table n = if n == 11 then some segv_action else some (record segv_action { handler = sig_dfl })

core_unmap_handler-set_signals_example :
    (a : Action) × ((set_signals table_os true [] table).1 11 ≡ some a)
    × (a.handler ≡ core_unmap)
    × ((core_unmap_handler none (set_signals table_os true [] table).0 11).0
        ≡ call (plain (custom 42) 11) ∷ kill 11 ∷ [])
core_unmap_handler-set_signals_example =
    core_unmap_handler-set_signals table_os table_os-IsOs table none 11 segv_action (omega arith)
      refl refl refl
