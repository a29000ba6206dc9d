-- ===== src/Storage.antt =====
-- The cache over the code of immutable_cache_persist.c: what `immutable_cache_store` puts in,
-- `immutable_cache_fetch` takes out.
use immutable_cache_pecl.Prelude.{ℕ, Bool, List, Option, none, some, if◌then◌else◌}
use immutable_cache_pecl.Cache.Entry.{ZendString, Entry}
use immutable_cache_pecl.Cache.Locks.{Grant, Process}
use immutable_cache_pecl.Cache.State.{Shm}
use immutable_cache_pecl.Persist.Value.{Zval}
use immutable_cache_pecl.Persist.Calc.{Php}
use immutable_cache_pecl.Persist.Copy.{Shared}
use immutable_cache_pecl.Persist.Entries.{persist, persist_process, unpersist}
pub mod Persisting
pub mod Whole
pub mod Release
mod Examples

-- the value where there is one and the status is not 0
abbrev pub if_successful : Option (Zval × Bool) → Option Zval
if_successful none = none
if_successful (some (z, ok)) = if ok then some z else none

-- What `immutable_cache_sma_malloc` and `immutable_cache_sma_free` do to the process.
pub record Aside (S : Type 0) : Type 0 where
  pub malloc_process : Grant → S → ℕ → Process → Process
  pub free_process : Grant → S → ℕ → Process → Process

module _ {R : Type 0} (php : Php R) (contains : ℕ → Bool) where
  -- A string of PHP has the hash of its bytes or, before it is computed, 0; one in shared memory has
  -- the hash. Either way the copy of an entry has it, so it is filled in beforehand.
  abbrev pub hashed_key : Entry Zval → Entry Zval
  hashed_key orig = record orig { key = record orig.key { h = php.hash orig.key.val } }

  -- `immutable_cache_cache_entry_fetch_zval`: what `dst` is, `none` for a PHP null with the status 0.
  -- A fatal error ends the program.
  unfoldable pub taken_out : Shared → Option R → Option Zval
  taken_out w serializer = if_successful (unpersist php serializer w)

  -- The interface of the cache. `malloc` and `free` are those of the allocator.
  abbrev pub shm :
      {S : Type 0}
      → (malloc : S → ℕ → ℕ × S) → (free : S → ℕ → S) → (find : List ℕ → Option R) → Aside S
      → Shm Zval R Shared S
  shm malloc free find aside = record {
    hash = php.hash;
    persist = λ s serializer orig. persist php serializer contains malloc s (hashed_key orig);
    free_entry = λ s e. free s e.addr;
    persist_process = λ grant s serializer orig.
        persist_process php serializer contains malloc (aside.malloc_process grant) s
          (hashed_key orig);
    free_process = λ grant s e. aside.free_process grant s e.addr;
    unpersist = taken_out;
    find_serializer = find;
  }
