-- ===== src/Storage/Examples.antt =====
-- Tests of the whole way: an array with a string is stored, stored again, and fetched.
use mathlib.Core.Path.{subst}
use immutable_cache_pecl.Prelude.{
  ◌==◌, ℕ, ◌+◌, ◌*◌, ◌/◌, ◌≡◌, refl, Bool, true, List, [], ◌∷◌, Option, none, some, arith, length,
  get_or, replicate, get_or-replicate, sym, false, if◌then◌else◌,
}
use immutable_cache_pecl.Cache.Entry.{ZendString}
use immutable_cache_pecl.Cache.Locks.{sma_lock, sma_unlock, Process, Grant, rlock}
use immutable_cache_pecl.Cache.State.{Cache, World, Shm, of_cache}
use immutable_cache_pecl.Cache.Operations.{store, fetch}
use immutable_cache_pecl.Cache.View.{IsHome, IsValid}
use immutable_cache_pecl.Cache.Immutable.{here, next, stores}
use immutable_cache_pecl.Persist.Value.{
  Head, Zval, scalar, string, packed, no_elem, elem, Plain, text, entries, no_item, int_key, plain,
}
use immutable_cache_pecl.Persist.Memo.{pointer_to_hash_key}
use immutable_cache_pecl.Persist.Calc.{Php, calc, calc_zval, calc_early, calc_str, calc_memoize}
use immutable_cache_pecl.Persist.Copy.{
  Shared, copy_zval, copy_cstr, get_or_copy_zstr, get_already_allocated, add_already_allocated,
}
use immutable_cache_pecl.Persist.Entries.{
  prepare, persist_copy, persist, copy_value, persist_process,
}
use immutable_cache_pecl.Persist.Contents.{Coherent}
use immutable_cache_pecl.Cache.Balance.{IsQuiet}
use immutable_cache_pecl.Storage.Release.{IsAside, Step-process}
use immutable_cache_pecl.Storage.{Aside, shm}
use immutable_cache_pecl.Storage.Whole.{Taken, fetch-store-Taken}

abbrev head : ℕ → Head
head n = record { table_mask = 0; num_elements = n; next_free = 0; internal_pointer = 0 }

abbrev php : Php ℕ
php = record {
  aligned = λ n. (n + 7) / 8 * 8;
  str_size = λ n. n + 25;
  sizeof_table = 56;
  sizeof_entry = 72;
  used_size = λ h n. n * 32 + 8;
  packed_used_size = λ h n. n * 16 + 8;
  min_mask = 4294967294;
  invalid_idx = 4294967295;
  hash = λ s. length s + 1;
  serialize = λ s z. some (79 ∷ []);
  unserialize = λ s z. none;
  empty_array = packed 64 (head 0) no_elem;
  null = scalar 1;
}

abbrev nowhere : ℕ → Bool
nowhere ptr = false

-- the lock of a segment, taken and given back
abbrev around : Grant → Process → Process
unfolding sma_lock sma_unlock
around g p = let (locked, p₁) = sma_lock g p in if locked then sma_unlock p₁ else p₁

abbrev aside : Aside ℕ
aside = record { malloc_process = λ g s n p. around g p; free_process = λ g s a p. around g p }

abbrev malloc : ℕ → ℕ → ℕ × ℕ
malloc sma size = (sma, sma + size)

abbrev free : ℕ → ℕ → ℕ
free sma addr = sma

abbrev find : List ℕ → Option ℕ
find name = none

abbrev memory : Shm Zval ℕ Shared ℕ
memory = shm php nowhere malloc free find aside

abbrev empty : Cache ℕ Shared ℕ
empty = record {
  header = record {
    nhits = 0;
    nmisses = 0;
    ninserts = 0;
    nentries = 0;
    mem_size = 0;
    stime = 5;
    state = 0;
  };
  slots = replicate 3 [];
  sma = 4096;
  serializer = none;
  nslots = 3;
  loaded_serializer = true;
}

empty-placed : (i : ℕ) → IsHome php.hash 3 i (get_or empty.slots i [])
empty-placed i = subst (IsHome {W = Shared} php.hash 3 i) (sym (get_or-replicate 3 i [])) tt

empty-IsValid : IsValid memory empty
empty-IsValid = record {
  width = refl;
  positive = omega arith;
  placed = empty-placed;
  counted = refl;
  inserted = refl;
  used = refl;
}

abbrev process : Process
process = record { entry_level = 0; protect_memory = true; writable = false; held = [] }

abbrev always : Grant
always l held = true

abbrev key : ZendString
key = record { ptr = 640; h = 0; val = 107 ∷ [] }

abbrev word : ZendString
word = record { ptr = 720; h = 0; val = 97 ∷ 98 ∷ [] }

abbrev words : Zval
words = packed 1600 (head 1) (elem (string word) no_elem)

-- what the addresses lead to
abbrev at : ℕ → Plain
at k =
    if k == 80
    then text key.val
    else if k == 90
    then text word.val
    else entries (int_key 0 (text word.val) no_item)

words-Coherent : Coherent at words
unfolding Coherent plain pointer_to_hash_key
words-Coherent = (refl, λ e. absurd (omega (arith, e)), (refl, tt))

key_text : text key.val ≡ at (pointer_to_hash_key key.ptr)
unfolding pointer_to_hash_key
key_text = refl

empty_plain : plain php.empty_array ≡ entries no_item
unfolding plain
empty_plain = refl

abbrev world : World ℕ Shared ℕ
world = of_cache (some empty) process

abbrev first_store : Bool × World ℕ Shared ℕ
first_store = store memory always world key words 6

abbrev second_store : Bool × World ℕ Shared ℕ
second_store = store memory always first_store.1 key (scalar 7) 8

abbrev last_cache : Cache ℕ Shared ℕ
last_cache = elim second_store.1.cache [ none ↦ empty | some c ↦ c ]

first_store-true : first_store.0 ≡ true
unfolding store persist persist_process prepare calc calc_zval calc_early calc_str calc_memoize
    persist_copy copy_value copy_zval copy_cstr get_or_copy_zstr get_already_allocated
    add_already_allocated
first_store-true = refl

last_cache-eq : second_store.1.cache ≡ some last_cache
unfolding store persist persist_process prepare calc calc_zval calc_early calc_str calc_memoize
    persist_copy copy_value copy_zval copy_cstr get_or_copy_zstr get_already_allocated
    add_already_allocated
last_cache-eq = refl

same_serializer : last_cache.serializer ≡ none
unfolding store persist persist_process prepare calc calc_zval calc_early calc_str calc_memoize
    persist_copy copy_value copy_zval copy_cstr get_or_copy_zstr get_already_allocated
    add_already_allocated
same_serializer = refl

granted : (p : Process) → (rlock always 2 p).0 ≡ true
unfolding rlock
granted p = ground arith

fetch-store-Taken_example :
    (out : Option Zval) × ((fetch memory always second_store.1 key.val 9).0 ≡ some out)
    × Taken php nowhere none words out
fetch-store-Taken_example =
    fetch-store-Taken php nowhere malloc free find aside at empty_plain empty process always key
      words 6 second_store.1 last_cache empty-IsValid tt words-Coherent key_text first_store-true
      (next here (stores always key (scalar 7) 8 refl)) last_cache-eq same_serializer always 9
      (granted second_store.1.process)

around-quiet : (g : Grant) (p : Process) → IsQuiet p → around g p ≡ p
unfolding sma_lock sma_unlock
around-quiet g p quiet = ground (arith, quiet)

aside-IsAside : IsAside aside
aside-IsAside = record {
  allocated = λ g s n p quiet. around-quiet g p quiet;
  deallocated = λ g s a p quiet. around-quiet g p quiet;
}

quiet : IsQuiet process
quiet h = refl

Step-process_example : first_store.1.process ≡ process
Step-process_example =
    Step-process php nowhere malloc free find aside aside-IsAside (stores always key words 6 refl)
      quiet
