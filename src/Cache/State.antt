-- ===== src/Cache/State.antt =====
-- immutable_cache_cache.h: the cache and its header, and the interface through which the cache
-- uses what is modelled elsewhere: the shared memory, the serializers, and PHP's string hash.
use immutable_cache_pecl.Prelude.{ℕ, Bool, List, Option, ◌≡◌, some}
use immutable_cache_pecl.Cache.Entry.{Entry}
use immutable_cache_pecl.Cache.Locks.{Process, Grant}

pub record Header : Type 0 where
  pub nhits : ℕ
  pub nmisses : ℕ
  pub ninserts : ℕ
  pub nentries : ℕ
  pub mem_size : ℕ
  pub stime : ℕ
  pub state : ℕ

-- `R` is a serializer, `W` a value in shared memory, `S` the state of the allocator. A slot is the
-- chain of entries that its pointer leads to.
pub record Cache (R W S : Type 0) : Type 0 where
  pub header : Header
  pub slots : List (List (Entry W))
  pub sma : S
  pub serializer : Option R
  pub nslots : ℕ
  pub loaded_serializer : Bool

-- What an exported function reads and changes: the cache, which may be NULL, and the process.
pub record World (R W S : Type 0) : Type 0 where
  pub cache : Option (Cache R W S)
  pub process : Process

-- `persist` is `immutable_cache_persist`, `free_entry` the call of `immutable_cache_sma_free`,
-- `unpersist` is `immutable_cache_unpersist`, whose result `none` is a PHP null with the status 0.
-- `persist_process` and `free_process` are what the first two do to the process: they take and give
-- back the lock of a segment, and turn the protection of memory off and on.
-- `hash` is PHP's `zend_string_hash_func`. `find_serializer` looks a name up.
pub record Shm (V R W S : Type 0) : Type 0 where
  pub hash : List ℕ → ℕ
  pub persist : S → Option R → Entry V → Option (Entry W) × S
  pub free_entry : S → Entry W → S
  pub persist_process : Grant → S → Option R → Entry V → Process → Process
  pub free_process : Grant → S → Entry W → Process → Process
  pub unpersist : W → Option R → Option V
  pub find_serializer : List ℕ → Option R

-- What the cache relies on: a persisted entry has the key's bytes, the hash of these, and the
-- statistics of the entry that was handed over.
pub record Persists {V R W S : Type 0} (shm : Shm V R W S) : Type 0 where
  pub kept :
      (s : S) (r : Option R) (orig : Entry V) (e : Entry W)
      → (shm.persist s r orig).0 ≡ some e
      → (e.key.val ≡ orig.key.val)
        × (e.key.h ≡ shm.hash orig.key.val)
        × (e.nhits ≡ orig.nhits)
        × (e.ctime ≡ orig.ctime)
        × (e.atime ≡ orig.atime)

module _ {R W S : Type 0} where
  abbrev pub of_cache : Option (Cache R W S) → Process → World R W S
  of_cache c p = record { cache = c; process = p }
