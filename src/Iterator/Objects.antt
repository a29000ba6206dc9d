-- ===== src/Iterator/Objects.antt =====
-- immutable_cache_iterator.c: how an iterator is made and freed.
use immutable_cache_pecl.Prelude.{
  ℕ, ◌-◌, ◌^◌, Bool, true, false, not, List, [], Option, none, some, length, ltb, leb, ◌==◌,
  if◌then◌else◌,
}
use immutable_cache_pecl.Iterator.{Iterator, Search, missing, other, text, key_list}

-- `immutable_cache_iterator_obj_init`. `compile` is `pcre_get_compiled_regex_cache`. `none` is a fatal
-- error, which ends the request; where the source throws or warns, the iterator is returned as it is.
unfoldable pub obj_init :
    {V : Type 0}
    → (List ℕ → Option (List ℕ → Bool))
    → (enabled : Bool) → Iterator V
    → Search
    → (format chunk_size list : ℕ) → Option (Iterator V)
obj_init compile enabled iterator wanted format chunk_size list =
    let fresh : Iterator _ = record {
      initialized = true;
      format = format;
      slot_idx = 0;
      chunk_size = if chunk_size == 0 then 100 else chunk_size;
      size_hint = chunk_size;
      stack = [];
      stack_idx = 0;
      regex = none;
      search_hash = none;
      key_idx = 0;
      totals_flag = false;
      hits = 0;
      size = 0;
      count = 0;
    } in
    if not enabled
    then some iterator
    else if ltb (2 ^ 32 - 1) format
    then none
    else if list == 1
    then elim wanted [
      | missing ↦ some fresh
      | other ↦ some fresh
      | text pattern ↦ if length pattern == 0 then some fresh else elim (compile pattern) [
        | none ↦ none
        | some match_key ↦ some (record fresh { regex = some match_key })
      ]
      | key_list ks ↦ some (record fresh { search_hash = some ks })
    ]
    else some iterator

-- `__construct`: a chunk size of 2^63 or more is a negative number
unfoldable pub construct :
    {V : Type 0}
    → (List ℕ → Option (List ℕ → Bool))
    → (enabled : Bool) → Iterator V
    → Search
    → (format chunk_size list : ℕ) → Option (Iterator V)
construct compile enabled iterator wanted format chunk_size list =
    if leb (2 ^ 63) chunk_size
    then none
    else obj_init compile enabled iterator wanted format chunk_size list

-- `immutable_cache_iterator_create`; the fields that it leaves as they are in memory are 0 here
abbrev pub iterator_create : {V : Type 0} → Iterator V
iterator_create = record {
  initialized = false;
  format = 0;
  slot_idx = 0;
  chunk_size = 0;
  size_hint = 0;
  stack = [];
  stack_idx = 0;
  regex = none;
  search_hash = none;
  key_idx = 0;
  totals_flag = false;
  hits = 0;
  size = 0;
  count = 0;
}

-- `immutable_cache_iterator_free`, but for the memory that it frees
unfoldable pub iterator_free : {V : Type 0} → Iterator V → Iterator V
iterator_free iterator =
    if iterator.initialized then record iterator { stack = []; initialized = false } else iterator
