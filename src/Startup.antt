-- ===== src/Startup.antt =====
-- php_immutable_cache.c: the start of the module and of a request, which put the parts together.
use immutable_cache_pecl.Prelude.{
  ℕ, Bool, true, false, ◌&&◌, ◌||◌, not, List, [], ◌∷◌, Option, none, some, if◌then◌else◌,
}
use immutable_cache_pecl.Prelude.Int.{ℤ}
use immutable_cache_pecl.Cache.Locks.{Process, Grant}
use immutable_cache_pecl.Cache.State.{Cache, World, Shm, of_cache}
use immutable_cache_pecl.Cache.Operations.{set_serializer}
use immutable_cache_pecl.Cache.Create.{create}
use immutable_cache_pecl.Cache.Preload.{Files, preload}
use immutable_cache_pecl.Sma.Blocks.{Blocks}
use immutable_cache_pecl.Sma.Setup.{State}
use immutable_cache_pecl.Mapping.{Outcome, fatal, done, sma_init_mapped}
use immutable_cache_pecl.Mapping
use immutable_cache_pecl.Serializers.{Serializer, register_serializer, find_serializer}
use immutable_cache_pecl.Signals.{Os, SignalInfo, set_signals}
pub mod Preloading
pub mod Started
mod Examples

-- The settings, as their handlers left them, and whether the name of the server interface is "cli".
-- The name of the serializer is not NULL, since it has a default.
pub record Settings : Type 0 where
  pub enabled : Bool
  pub enable_cli : Bool
  pub is_cli : Bool
  pub shm_segments : ℤ
  pub shm_size : ℕ
  pub mmap_file_mask : Option (List ℕ)
  pub serializer_name : List ℕ
  pub entries_hint : ℕ
  pub preload_path : Option (List ℕ)
  pub coredump_unmap : Bool

-- `enabled` and `initialized` of the globals, `immutable_cache_sma`, the table of serializers, the user
-- cache, the process, the signal handlers, and the state of the system's `sigaction`. When the cache
-- is created, it has the allocator as it is from then on.
pub record Module (R W O : Type 0) : Type 0 where
  pub enabled : Bool
  pub initialized : Bool
  pub sma : State
  pub serializers : List (Serializer R)
  pub cache : Option (Cache R W State)
  pub process : Process
  pub signals : SignalInfo
  pub os_state : O

-- `"php"` and `"igbinary"`
abbrev pub php_name : List ℕ
php_name = b'p' ∷ b'h' ∷ b'p' ∷ []

abbrev pub igbinary_name : List ℕ
igbinary_name = b'i' ∷ b'g' ∷ b'b' ∷ b'i' ∷ b'n' ∷ b'a' ∷ b'r' ∷ b'y' ∷ []

-- the built-in serializers; those of igbinary are absent if that extension is
unfoldable pub register_builtin :
    {R : Type 0} → R → Option R → List (Serializer R) → List (Serializer R)
register_builtin php igbinary table =
    let t = (register_serializer php_name php table).1 in
    elim igbinary [ none ↦ t | some functions ↦ (register_serializer igbinary_name functions t).1 ]

-- the interface of the cache, over a table of serializers
abbrev pub with_table : {V R W S : Type 0} → Shm V R W S → List (Serializer R) → Shm V R W S
with_table shm table = record shm { find_serializer = λ name. find_serializer name table }

-- What the start finds: the system's calls for files and memory and their state, what new segments
-- hold, the time, the serializers, the answers to lock calls, and the directory of files.
pub record Surroundings (V R O M : Type 0) : Type 0 where
  pub mapping : Mapping.Os M
  pub system : M
  pub memory : ℕ → Blocks
  pub now : ℕ
  pub php : R
  pub igbinary : Option R
  pub grant : Grant
  pub files : Files V
  pub time : ℕ → ℕ
  pub names : List ℕ → Option (List (List ℕ))
  pub os : Os O

module _ {V R W O M : Type 0} (shm : Shm V R W State) (malloc : State → ℕ → ℕ × State)
    (out : Surroundings V R O M) where
  abbrev pub world_of : Module R W O → World R W State
  world_of m = of_cache m.cache m.process

  -- the preloading, if there is a path
  unfoldable pub preload_all :
      Option (List ℕ) → List (Serializer R) → World R W State → World R W State
  preload_all path table w = elim path [
    | none ↦ w
    | some p ↦ (preload (with_table shm table) out.grant out.files w p out.time (out.names p)).1
  ]

  -- what the block that runs once does with the allocator, once that is set up
  unfoldable pub initialize_with : Settings → Module R W O → State → Option (Module R W O)
  initialize_with set m sma =
      let table = register_builtin out.php out.igbinary m.serializers in
      let found = find_serializer set.serializer_name table in
      elim (create {W = W} malloc sma found set.entries_hint out.now m.process) [
        | none ↦ none
        | some (c, p) ↦
            let w = preload_all set.preload_path table (of_cache (some c) p) in
            some (record m {
              initialized = true;
              sma = sma;
              serializers = table;
              cache = w.cache;
              process = w.process;
            })
      ]

  -- the block that runs once; `none` is the end of the program, because a segment cannot be mapped or
  -- for want of memory
  unfoldable pub initialize : Settings → Module R W O → Option (Module R W O)
  unfolding initialize_with
  initialize set m =
      elim (sma_init_mapped out.mapping out.memory m.sma set.shm_segments set.shm_size
        set.mmap_file_mask out.system) [
          | fatal f s ↦ none
          | done sma mask s ↦ initialize_with set m sma
        ]

  -- `PHP_MINIT_FUNCTION(immutable_cache)`, less the registration of names, of settings and of classes
  unfoldable pub minit : Settings → Module R W O → Option (Module R W O)
  minit set m =
      let enabled = set.enabled && (set.enable_cli || not set.is_cli) in
      if enabled && not m.initialized
      then initialize set (record m { enabled = enabled })
      else some (record m { enabled = enabled })

  abbrev pub mark_serializer : Option (Cache R W State) → Option (Cache R W State)
  mark_serializer none = none
  mark_serializer (some c) = some (record c { loaded_serializer = true })

  -- `PHP_RINIT_FUNCTION(immutable_cache)`; an enabled module has a cache
  unfoldable pub rinit : Settings → Module R W O → Module R W O
  rinit set m =
      let w =
        set_serializer (with_table shm m.serializers) out.grant (world_of m) set.serializer_name in
      let (signals, os_state) = set_signals out.os set.coredump_unmap m.signals m.os_state in
      if m.enabled
      then record m { cache = mark_serializer w.cache; signals = signals; os_state = os_state }
      else m
