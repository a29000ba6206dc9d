-- ===== src/Iterator/Examples.antt =====
-- Tests of the iterator, and the theorems applied.
use immutable_cache_pecl.Prelude.{
  ℕ, ◌+◌, ◌*◌, ◌<◌, ◌%◌, ◌^◌, ◌≡◌, refl, true, false, [], ◌∷◌, map, none, some, length, arith,
}
use immutable_cache_pecl.Cache.Entry.{ZendString, Entry}
use immutable_cache_pecl.Cache.Locks.{Grant, Process, rlock_global, sma_rlock}
use immutable_cache_pecl.Cache.State.{Cache, Shm}
use immutable_cache_pecl.Iterator.{Iterator, key_list, chain_items, search_match, get_total}
use immutable_cache_pecl.Iterator.Objects.{iterator_create, construct, obj_init}
use immutable_cache_pecl.Iterator.Scan.{all_items}
use immutable_cache_pecl.Iterator.Loop.{foreach, foreach-all_items, seen_as}
use immutable_cache_pecl.Iterator.Totals.{get_total-count}

abbrev shm : Shm ℕ ℕ ℕ ℕ
shm = record {
  hash = length;
  persist = λ s r e. (some e, s);
  free_entry = λ s e. s;
  persist_process = λ g s r e p. p;
  free_process = λ g s e p. p;
  unpersist = λ w r. some w;
  find_serializer = λ name. none;
}

abbrev always : Grant
always l held = true

abbrev never : Grant
never l held = false

abbrev process : Process
process = record { entry_level = 0; protect_memory = false; writable = true; held = [] }

abbrev key_of : ℕ → ZendString
key_of n = record { ptr = n * 8; h = 1; val = n ∷ [] }

abbrev entry : ℕ → Entry ℕ
entry n = record {
  addr = n * 64;
  key = key_of n;
  val = n + 100;
  nhits = n;
  ctime = 5;
  atime = 5;
  mem_size = 64;
}

-- an entry, an empty slot, and a slot with two entries
abbrev cache : Cache ℕ ℕ ℕ
cache = record {
  header = record {
    nhits = 0;
    nmisses = 0;
    ninserts = 3;
    nentries = 3;
    mem_size = 192;
    stime = 1;
    state = 0;
  };
  slots = (entry 1 ∷ []) ∷ [] ∷ (entry 2 ∷ entry 3 ∷ []) ∷ [];
  sma = 0;
  serializer = none;
  nslots = 3;
  loaded_serializer = true;
}

-- an iterator with chunks of one entry, for the keys 2 and 1 by their values
abbrev it : Iterator ℕ
it = record iterator_create {
  initialized = true;
  format = 4;
  chunk_size = 1;
  size_hint = 1;
  search_hash = some ((2 ∷ []) ∷ (1 ∷ []) ∷ []);
}

construct_test :
    construct (λ pattern. none) true iterator_create (key_list ((2 ∷ []) ∷ (1 ∷ []) ∷ [])) 4 1 1
    ≡ some it
unfolding construct obj_init
construct_test = refl

few : length (all_items shm always cache it cache.slots) < 4
unfolding all_items chain_items search_match
few = omega arith

fit : length (all_items shm always cache it cache.slots) < 2 ^ 31
unfolding all_items chain_items search_match
fit = omega arith

granted : (rlock_global always process).0 ≡ true
unfolding rlock_global sma_rlock
granted = refl

foreach-all_items_example :
    foreach shm always cache 4 process it
    ≡ some (map seen_as (all_items shm always cache it cache.slots))
foreach-all_items_example =
    foreach-all_items shm always cache it refl (omega arith) process granted 4 fit few

get_total-count_example :
    (n : ℕ) × ((get_total shm always (λ i. i.count) cache process it).0 ≡ some n)
    × (n % 2 ^ 64 ≡ length (all_items shm always cache it cache.slots) % 2 ^ 64)
get_total-count_example = get_total-count shm always cache it process refl refl refl granted
