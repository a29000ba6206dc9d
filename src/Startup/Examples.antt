-- ===== src/Startup/Examples.antt =====
-- Tests of the start: a module over shared memory without end, which preloads one file.
use immutable_cache_pecl.Prelude.{ℕ, ◌+◌, ◌*◌, true, false, [], ◌∷◌, none, some, ◌≡◌, refl, length}
use immutable_cache_pecl.Prelude.Int.{pos}
use immutable_cache_pecl.Cache.Entry.{Entry}
use immutable_cache_pecl.Cache.State.{Shm, Persists}
use immutable_cache_pecl.Cache.Create.{create}
use immutable_cache_pecl.Cache.Preload.{dot_data}
use immutable_cache_pecl.Sma.Blocks.{Blocks, Segment}
use immutable_cache_pecl.Sma.Setup.{State, number_of_segments}
use immutable_cache_pecl.Serializers.{no_serializers}
use immutable_cache_pecl.Mapping.{sma_init_mapped, map_segments, map_segment, map_file}
use immutable_cache_pecl.Startup.{
  Settings, Module, Surroundings, php_name, minit, rinit, initialize_with, initialize,
}
use immutable_cache_pecl.Startup.Started.{Started, Ready, rinit-minit}

abbrev copied : Entry ℕ → Entry ℕ
copied orig = record orig {
  key = record { ptr = orig.key.ptr; h = length orig.key.val; val = orig.key.val };
  mem_size = 64;
}

abbrev memory : Blocks
memory = record { size = λ a. 3; prev_size = λ a. 4; fnext = λ a. 5; fprev = λ a. 6 }

abbrev shm : Shm ℕ ℕ ℕ State
shm = record {
  hash = length;
  persist = λ s r orig. (some (copied orig), s);
  free_entry = λ s e. s;
  persist_process = λ g s r e p. p;
  free_process = λ g s e p. p;
  unpersist = λ w r. some w;
  find_serializer = λ name. none;
}

shm-Persists_vast : Persists shm
shm-Persists_vast = record { kept = λ s r orig e made. (cc, cc, cc, cc, cc) }

-- the address of the header of the cache
abbrev malloc : State → ℕ → ℕ × State
malloc s size = (4160, s)

abbrev surroundings : Surroundings ℕ ℕ ℕ ℕ
surroundings = record {
  memory = λ i. memory;
  mapping = record {
    mkstemp = λ s mask. (none, s);
    ftruncate = λ s fd size. (true, s);
    mmap = λ s size fd. (some (4096 + s * 4194304), s + 1);
    close = λ s fd. (true, s);
    unlink = λ s name. (true, s);
  };
  system = 0;
  now = 7;
  php = 1;
  igbinary = none;
  grant = λ l held. true;
  files = record {
    exists = λ path. true;
    contents = λ path. 53 ∷ [];
    unserialize = λ bytes. some 5;
    uninitialized = 0;
    is_undef = λ v. false;
    string_init = λ k. record { ptr = 0; h = 0; val = k };
  };
  time = λ i. i;
  names = λ path. some ((97 ∷ dot_data) ∷ []);
  os = record { query = λ s n. none; install = λ s n a. (false, s) };
}

abbrev settings : Settings
settings = record {
  enabled = true;
  enable_cli = false;
  is_cli = false;
  shm_segments = pos 1;
  shm_size = 2097152;
  mmap_file_mask = none;
  serializer_name = php_name;
  entries_hint = 3;
  preload_path = some (47 ∷ 100 ∷ []);
  coredump_unmap = true;
}

abbrev segment : Segment
segment = record { blocks = memory; avail = 0; segsize = 0 }

abbrev loaded_module : Module ℕ ℕ ℕ
loaded_module = record {
  enabled = true;
  initialized = false;
  sma = record {
    initialized = false;
    sma = record { size = 0; last = 0; segs = []; shmaddr = λ i. 0 };
    lock_segment = segment;
  };
  serializers = no_serializers 0;
  cache = none;
  process = record { entry_level = 0; protect_memory = true; writable = false; held = [] };
  signals = [];
  os_state = 0;
}

abbrev started : Module ℕ ℕ ℕ
started = elim (minit shm malloc surroundings settings loaded_module) [
  | none ↦ loaded_module
  | some m ↦ m
]

minit-started : minit shm malloc surroundings settings loaded_module ≡ some started
unfolding minit initialize initialize_with create sma_init_mapped map_segments map_segment map_file
    number_of_segments
minit-started = refl

rinit-minit_example :
    Started shm shm-Persists_vast malloc surroundings settings started
    × Ready shm shm-Persists_vast malloc surroundings settings started
        (rinit shm malloc surroundings settings started)
rinit-minit_example =
    rinit-minit shm shm-Persists_vast malloc surroundings settings loaded_module started refl refl
      minit-started
