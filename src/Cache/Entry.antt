-- ===== src/Cache/Entry.antt =====
-- immutable_cache_cache.h: the entry of the hash table, and immutable_cache_cache.c: the test of
-- its key. An entry holds a value of any type: the caller's (`V`) before it is persisted, the one
-- in shared memory (`W`) afterwards. The `next` field is the order of the chain that holds it.
use immutable_cache_pecl.Prelude.{ℕ, Bool, List, ◌&&◌, length, memcmp, ◌==◌}

-- `zend_string`: its address, the hash that it carries (0 before it is computed), and the bytes.
pub record ZendString : Type 0 where
  pub ptr : ℕ
  pub h : ℕ
  pub val : List ℕ

pub record Entry (V : Type 0) : Type 0 where
  -- where the entry stands in shared memory
  pub addr : ℕ
  pub key : ZendString
  pub val : V
  pub nhits : ℕ
  pub ctime : ℕ
  pub atime : ℕ
  pub mem_size : ℕ

-- `immutable_cache_entry_key_equals`: the hash, the length, the bytes.
unfoldable pub key_equals : {W : Type 0} → Entry W → List ℕ → ℕ → Bool
key_equals entry key hash =
    entry.key.h == hash
    && (length entry.key.val == length key && memcmp entry.key.val key (length key))

-- `immutable_cache_cache_init_entry`, on a temporary entry whose address is not used.
unfoldable pub init_entry : {V : Type 0} → ZendString → V → ℕ → Entry V
init_entry key val t = record {
  addr = 0;
  key = key;
  val = val;
  nhits = 0;
  ctime = t;
  atime = t;
  mem_size = 0;
}
