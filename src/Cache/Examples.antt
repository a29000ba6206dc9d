-- ===== src/Cache/Examples.antt =====
-- Tests of the cache: an empty cache of three slots, whose memory holds two entries, and the
-- theorems at concrete calls.
use mathlib.Core.Path.{subst}
use immutable_cache_pecl.Prelude.{
  ◌==◌, ℕ, zero, suc, ◌%◌, ◌^◌, ◌≡◌, refl, Bool, true, false, List, [], ◌∷◌, Option, none, some,
  arith, length, get_or, replicate, get_or-replicate, sym,
}
use immutable_cache_pecl.Cache.Entry.{ZendString, Entry, init_entry}
use immutable_cache_pecl.Cache.Locks.{
  Process, Grant, wlock, rlock, rlock_global, lookup_fine_grained_lock,
}
use immutable_cache_pecl.Cache.State.{Cache, World, Shm, Persists, of_cache}
use immutable_cache_pecl.Cache.Operations.{Info, LinkInfo, store, find, fetch, cache_info}
use immutable_cache_pecl.Cache.Slots.{rlocked_find_nostat, hash_slot}
use immutable_cache_pecl.Cache.Agreement.{store-Reach}
use immutable_cache_pecl.Cache.Exclusion.{hash_slot-lookup_fine_grained_lock}
use immutable_cache_pecl.Cache.Chains.{Frozen, frozen?}
use immutable_cache_pecl.Cache.View.{IsHome, view, IsValid}
use immutable_cache_pecl.Cache.Store.{Outcome, store-Outcome}
use immutable_cache_pecl.Cache.Keeps.{held_in, IsSound}
use immutable_cache_pecl.Cache.Immutable.{Reach, here, next, finds, stores, Reach-Keeps, held-Reach}
use immutable_cache_pecl.Cache.Create.{create, fresh_cache, create-IsValid}
use immutable_cache_pecl.Cache.Fetch.{copy_out, find-view, fetch-view, fetch-store}
use immutable_cache_pecl.Cache.Info.{Lists, cache_info-Lists, cache_info_complete}
use immutable_cache_pecl.Cache.Listing.{Any, Tells}

-- Shared memory with room for a number of entries. A value is stored as it is.
abbrev pub persist : ℕ → Option ℕ → Entry ℕ → Option (Entry ℕ) × ℕ
persist zero r orig = (none, 0)
persist (suc n) r orig = (
  some (record orig {
    addr = suc n;
    key = record { ptr = orig.key.ptr; h = length orig.key.val; val = orig.key.val };
    mem_size = 64;
  }),
  n,
)

abbrev pub shm : Shm ℕ ℕ ℕ ℕ
shm = record {
  hash = length;
  persist = persist;
  free_entry = λ n e. suc n;
  persist_process = λ g s r e p. p;
  free_process = λ g s e p. p;
  unpersist = λ w r. some w;
  find_serializer = λ name. none;
}

persist-kept :
    (s : ℕ) (r : Option ℕ) (orig : Entry ℕ) (e : Entry ℕ)
    → (persist s r orig).0 ≡ some e
    → (e.key.val ≡ orig.key.val)
      × (e.key.h ≡ length orig.key.val)
      × (e.nhits ≡ orig.nhits)
      × (e.ctime ≡ orig.ctime)
      × (e.atime ≡ orig.atime)
persist-kept zero r orig e made = absurd (ground arith)
persist-kept (suc n) r orig e made = (cc, cc, cc, cc, cc)

pub shm-Persists : Persists shm
shm-Persists = record { kept = persist-kept }

abbrev pub empty : Cache ℕ ℕ ℕ
empty = record {
  header = record {
    nhits = 0;
    nmisses = 0;
    ninserts = 0;
    nentries = 0;
    mem_size = 0;
    stime = 5;
    state = 0;
  };
  slots = replicate 3 [];
  sma = 2;
  serializer = none;
  nslots = 3;
  loaded_serializer = false;
}

empty-placed : (i : ℕ) → IsHome length 3 i (get_or empty.slots i [])
empty-placed i = subst (IsHome {W = ℕ} length 3 i) (sym (get_or-replicate 3 i [])) tt

pub empty-IsValid : IsValid shm empty
empty-IsValid = record {
  width = refl;
  positive = omega arith;
  placed = empty-placed;
  counted = refl;
  inserted = refl;
  used = refl;
}

abbrev pub process : Process
process = record { entry_level = 0; protect_memory = true; writable = false; held = [] }

abbrev pub always : Grant
always l held = true

abbrev pub key : ZendString
key = record { ptr = 640; h = 2; val = 7 ∷ 9 ∷ [] }

abbrev world : World ℕ ℕ ℕ
world = of_cache (some empty) process

-- The world after a store, after a lookup, and after a second store under the same key.
abbrev first_store : Bool × World ℕ ℕ ℕ
first_store = store shm always world key 41 6

abbrev found : Option (Entry ℕ) × World ℕ ℕ ℕ
found = find shm always first_store.1 (7 ∷ 9 ∷ []) 7

abbrev second_store : Bool × World ℕ ℕ ℕ
second_store = store shm always found.1 key 43 8

abbrev cache_of : Option (Cache ℕ ℕ ℕ) → Cache ℕ ℕ ℕ
cache_of none = empty
cache_of (some c) = c

abbrev last_cache : Cache ℕ ℕ ℕ
last_cache = cache_of second_store.1.cache

abbrev kept_entry : Frozen ℕ
kept_entry = record { addr = 2; key = key; val = 41; ctime = 6; mem_size = 64 }

first_store-true : first_store.0 ≡ true
unfolding store
first_store-true = refl

second_store-false : second_store.0 ≡ false
unfolding store find
second_store-false = refl

last_cache-eq : second_store.1.cache ≡ some last_cache
unfolding store find
last_cache-eq = refl

steps : Reach shm first_store.1 second_store.1
steps = next (next here (finds always (7 ∷ 9 ∷ []) 7 refl)) (stores always key 43 8 refl)

all_steps : Reach shm world second_store.1
all_steps =
    next (next (next here (stores always key 41 6 refl)) (finds always (7 ∷ 9 ∷ []) 7 refl))
      (stores always key 43 8 refl)

granted : (p : Process) → (rlock always 2 p).0 ≡ true
unfolding rlock
granted p = ground arith

first_held : held_in shm first_store.1.cache (7 ∷ 9 ∷ []) ≡ some kept_entry
unfolding store view rlocked_find_nostat
first_held = refl

first_IsSound : IsSound shm first_store.1.cache
first_IsSound =
    (Reach-Keeps shm shm-Persists (next here (stores always key 41 6 refl)) empty-IsValid).sound

held-Reach_example :
    IsSound shm second_store.1.cache
    × (held_in shm second_store.1.cache (7 ∷ 9 ∷ []) ≡ some kept_entry)
held-Reach_example =
    held-Reach shm shm-Persists steps first_IsSound (7 ∷ 9 ∷ []) kept_entry first_held

fetch-store_example :
    (e : Entry ℕ) × ((shm.persist 2 none (init_entry key 41 6)).0 ≡ some e)
    × ((fetch shm always second_store.1 (7 ∷ 9 ∷ []) 9).0 ≡ some (some e.val))
fetch-store_example =
    fetch-store shm shm-Persists empty process empty-IsValid always key 41 6 second_store.1
      last_cache first_store-true steps last_cache-eq always 9 (granted second_store.1.process)

store-Outcome_example :
    Outcome shm shm-Persists always empty process key 41 6 (store shm always world key 41 6)
store-Outcome_example = store-Outcome shm shm-Persists always empty process key 41 6 empty-IsValid

abbrev pub stored_cache : Cache ℕ ℕ ℕ
stored_cache = cache_of first_store.1.cache

pub stored_IsValid : IsValid shm stored_cache
unfolding store
stored_IsValid = first_IsSound

stored_view : view shm stored_cache (7 ∷ 9 ∷ []) ≡ some kept_entry
unfolding store view rlocked_find_nostat
stored_view = refl

fetch-view_example :
    (fetch shm always (of_cache (some stored_cache) process) (7 ∷ 9 ∷ []) 9).0
    ≡ copy_out shm stored_cache.serializer (view shm stored_cache (7 ∷ 9 ∷ []))
fetch-view_example =
    fetch-view shm always stored_cache process (7 ∷ 9 ∷ []) stored_IsValid (granted process) 9

find-view_example :
    frozen? (find shm always (of_cache (some stored_cache) process) (7 ∷ 9 ∷ []) 9).0
    ≡ view shm stored_cache (7 ∷ 9 ∷ [])
find-view_example =
    find-view shm always stored_cache process (7 ∷ 9 ∷ []) stored_IsValid (granted process) 9

wlock_granted : (wlock always 21 process).0 ≡ true
unfolding wlock
wlock_granted = refl

global_granted : (rlock_global always process).0 ≡ true
unfolding rlock_global
global_granted = refl

cache_info-Lists_example :
    (i : Info) × (list : List LinkInfo) × (slots : List (ℕ × ℕ)) × ((cache_info always
        (of_cache (some stored_cache) process)
        false).0
      ≡ some i)
    × (i.lists ≡ some (list, slots))
    × (i.num_entries ≡ length list % 2 ^ 64)
    × Lists shm stored_cache stored_IsValid list slots
cache_info-Lists_example =
    cache_info-Lists shm stored_cache stored_IsValid always process global_granted

cache_info_complete_example :
    (i : Info) × (list : List LinkInfo) × (slots : List (ℕ × ℕ)) × ((cache_info always
        (of_cache (some stored_cache) process)
        false).0
      ≡ some i)
    × (i.lists ≡ some (list, slots))
    × Any (λ li. (li.info ≡ 7 ∷ 9 ∷ []) × Tells kept_entry li) list
cache_info_complete_example =
    cache_info_complete shm stored_cache stored_IsValid always process global_granted (7 ∷ 9 ∷ [])
      kept_entry stored_view

abbrev malloc : ℕ → ℕ → ℕ × ℕ
malloc sma size = (4096, sma)

abbrev created : Option (Cache ℕ ℕ ℕ × Process)
created = create malloc 2 none 600 5 process

abbrev created_cache : Cache ℕ ℕ ℕ
created_cache = fresh_cache 2 none 1031 5

created-eq : created ≡ some (created_cache, process)
unfolding create
created-eq = refl

create-IsValid_example :
    IsValid shm created_cache × ((q : List ℕ) → view shm created_cache q ≡ none)
create-IsValid_example =
    create-IsValid shm malloc 2 none 600 5 process created_cache process created-eq

-- Two keys of the slot 2, with the locks 5 and 2.
hash_slot-lookup_fine_grained_lock_example :
    ((hash_slot shm empty (1 ∷ 2 ∷ 3 ∷ 4 ∷ 5 ∷ [])).1 ≡ (hash_slot shm empty (7 ∷ 9 ∷ [])).1)
    × ((lookup_fine_grained_lock (hash_slot shm empty (1 ∷ 2 ∷ 3 ∷ 4 ∷ 5 ∷ [])).0
          == lookup_fine_grained_lock (hash_slot shm empty (7 ∷ 9 ∷ [])).0)
        ≡ false)
hash_slot-lookup_fine_grained_lock_example =
    hash_slot-lookup_fine_grained_lock shm empty (7 ∷ 9 ∷ []) (1 ∷ 2 ∷ 3 ∷ 4 ∷ 5 ∷ []) refl refl

store-Reach_example :
    ((store shm always second_store.1 key 45 10).0 ≡ false)
    × (held_in shm (store shm always second_store.1 key 45 10).1.cache (7 ∷ 9 ∷ [])
        ≡ some kept_entry)
store-Reach_example =
    store-Reach shm shm-Persists steps first_IsSound key kept_entry first_held always 45 10
