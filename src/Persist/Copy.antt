-- ===== src/Persist/Copy.antt =====
-- immutable_cache_persist.c: the copy of an entry into shared memory. It mutates arrays that it has
-- copied slot by slot; here a finished array hides the one that was put into the table of pointers.
use immutable_cache_pecl.Prelude.{
  ℕ, ◌+◌, ◌%◌, ◌^◌, Bool, true, false, List, [], Option, none, some, length, leb, ◌==◌,
  if◌then◌else◌,
}
use immutable_cache_pecl.Cache.Entry.{ZendString}
use immutable_cache_pecl.Sma.Words.{add64}
use immutable_cache_pecl.Persist.Value.{
  Head, Zval, is_undef, undef, scalar, string, packed, hashed, object, resource, reference, Elems,
  no_elem, elem, Buckets, no_bucket, keyed, indexed, indirect, num_elems, num_buckets,
}
use immutable_cache_pecl.Persist.Memo.{pointer_to_hash_key, lookup, note_made}
use immutable_cache_pecl.Persist.Calc.{Php}

-- A value in shared memory. The string of a serialized value has the type `IS_PTR`.
pub data Shared : Type 0 where
  value : Zval → Shared
  serialized : ZendString → Shared

-- The part of the context that the copy changes: `alloc_cur` and `already_allocated`.
pub record Copy : Type 0 where
  pub alloc_cur : ℕ
  pub already_allocated : Option (List (ℕ × Zval))

-- What is read where a pointer leads to a string. No string stands at the address of an array.
abbrev pub as_string : Zval → ZendString
as_string (string s) = s
as_string _ = record { ptr = 0; h = 0; val = [] }

-- `immutable_cache_persist_get_already_allocated`; `here` is what `ptr` leads to
unfoldable pub get_already_allocated : (ℕ → Bool) → Copy → ℕ → Zval → Option Zval
unfolding pointer_to_hash_key
get_already_allocated contains c ptr here =
    if contains ptr then some here else elim (c.already_allocated) [
      | none ↦ none
      | some made ↦ lookup (pointer_to_hash_key ptr) made
    ]

-- `immutable_cache_persist_add_already_allocated`
unfoldable pub add_already_allocated : ℕ → Zval → Copy → Copy
unfolding pointer_to_hash_key
add_already_allocated ptr z c = record c {
  already_allocated = note_made (pointer_to_hash_key ptr) z c.already_allocated;
}

module _ {R : Type 0} (php : Php R) where
  -- `immutable_cache_persist_alloc`: the state behind the allocation, which is at `c.alloc_cur`
  abbrev pub alloc : ℕ → Copy → Copy
  alloc size c = record c { alloc_cur = add64 c.alloc_cur (php.aligned size) }

  -- `zend_string_hash_val`
  abbrev pub hash_val : ℕ → List ℕ → ℕ
  hash_val h val = if h == 0 then php.hash val else h

  -- `immutable_cache_persist_copy_cstr`
  unfoldable pub copy_cstr : List ℕ → ℕ → Copy → ZendString × Copy
  copy_cstr buf hash c = (
    record { ptr = c.alloc_cur; h = hash_val hash buf; val = buf },
    alloc (php.str_size (length buf)) c,
  )

  -- `(zend_long) h >= (zend_long) next_free` on words
  abbrev pub at_least : ℕ → ℕ → Bool
  at_least h next_free = leb ((next_free + 2 ^ 63) % 2 ^ 64) ((h + 2 ^ 63) % 2 ^ 64)

  -- the header as it stands when the slots are copied
  abbrev pub start_slots : Head → Head
  start_slots head = record head { next_free = 0; internal_pointer = php.invalid_idx }

  -- the first slot in use
  abbrev pub point_to : ℕ → Head → Head
  point_to idx head =
      if head.internal_pointer == php.invalid_idx
      then record head { internal_pointer = idx }
      else head

  abbrev pub used_index : ℕ → ℕ → Head → Head
  used_index h next head =
      if at_least h head.next_free then record head { next_free = next } else head

  -- an array without slots
  abbrev pub empty_table : ℕ → Head → Zval
  empty_table addr head =
      hashed addr (record head { table_mask = php.min_mask; next_free = 0 }) no_bucket

module _ {R : Type 0} (php : Php R) (contains : ℕ → Bool) where
  -- `immutable_cache_persist_get_or_copy_zstr`
  unfoldable pub get_or_copy_zstr : ZendString → Copy → ZendString × Copy
  get_or_copy_zstr s c = elim (get_already_allocated contains c s.ptr (string s)) [
    | some z ↦ (as_string z, c)
    | none ↦
        let (new, c₁) = copy_cstr php s.val s.h c in
        (new, add_already_allocated s.ptr (string new) c₁)
  ]

  unfoldable mutual
    -- `immutable_cache_persist_copy_zval` without serialization; an array is copied by
    -- `immutable_cache_persist_copy_ht`. The last three cases are never reached.
    pub copy_zval : Zval → Copy → Zval × Copy
    copy_zval undef c = (undef, c)
    copy_zval (scalar n) c = (scalar n, c)
    copy_zval (string s) c = elim (get_already_allocated contains c s.ptr (string s)) [
      | some z ↦ (z, c)
      | none ↦ let (new, c₁) = get_or_copy_zstr s c in (string new, c₁)
    ]
    copy_zval (packed ptr head zs) c =
        elim (get_already_allocated contains c ptr (packed ptr head zs)) [
          | some z ↦ (z, c)
          | none ↦
              let addr = c.alloc_cur in
              let c₁ =
                add_already_allocated ptr (packed addr head zs) (alloc php php.sizeof_table c) in
              let empty = empty_table php addr head in
              let (zs', head', c₂) =
                copy_elems zs 0 (start_slots php head)
                  (alloc php (php.packed_used_size head (num_elems zs)) c₁) in
              if num_elems zs == 0
              then (empty, add_already_allocated ptr empty c₁)
              else (packed addr head' zs', add_already_allocated ptr (packed addr head' zs') c₂)
        ]
    copy_zval (hashed ptr head bs) c =
        elim (get_already_allocated contains c ptr (hashed ptr head bs)) [
          | some z ↦ (z, c)
          | none ↦
              let addr = c.alloc_cur in
              let c₁ =
                add_already_allocated ptr (hashed addr head bs) (alloc php php.sizeof_table c) in
              let empty = empty_table php addr head in
              let (bs', head', c₂) =
                copy_buckets bs 0 (start_slots php head)
                  (alloc php (php.used_size head (num_buckets bs)) c₁) in
              if num_buckets bs == 0
              then (empty, add_already_allocated ptr empty c₁)
              else (hashed addr head' bs', add_already_allocated ptr (hashed addr head' bs') c₂)
        ]
    copy_zval (object ptr) c = (object ptr, c)
    copy_zval (resource ptr) c = (resource ptr, c)
    copy_zval (reference ptr) c = (reference ptr, c)

    pub copy_elems : Elems → ℕ → Head → Copy → Elems × Head × Copy
    copy_elems no_elem idx head c = (no_elem, head, c)
    copy_elems (elem z zs) idx head c = elim (is_undef z) [
      | true ↦ let (zs', head', c') = copy_elems zs (idx + 1) head c in (elem z zs', head', c')
      | false ↦
          let head₁ = used_index php idx ((idx + 1) % 2 ^ 32) (point_to php idx head) in
          let (z', c₁) = copy_zval z c in
          let (zs', head', c') = copy_elems zs (idx + 1) head₁ c₁ in (elem z' zs', head', c')
    ]

    pub copy_buckets : Buckets → ℕ → Head → Copy → Buckets × Head × Copy
    copy_buckets no_bucket idx head c = (no_bucket, head, c)
    copy_buckets (keyed k z bs) idx head c = elim (is_undef z) [
      | true ↦ let (bs', head', c') = copy_buckets bs (idx + 1) head c in (keyed k z bs', head', c')
      | false ↦
          let (k', c₁) = get_or_copy_zstr k c in
          let (z', c₂) = copy_zval z c₁ in
          let (bs', head', c') = copy_buckets bs (idx + 1) (point_to php idx head) c₂ in
          (keyed k' z' bs', head', c')
    ]
    copy_buckets (indexed h z bs) idx head c = elim (is_undef z) [
      | true ↦
          let (bs', head', c') = copy_buckets bs (idx + 1) head c in (indexed h z bs', head', c')
      | false ↦
          let head₁ = used_index php h (add64 h 1) (point_to php idx head) in
          let (z', c₁) = copy_zval z c in
          let (bs', head', c') = copy_buckets bs (idx + 1) head₁ c₁ in (indexed h z' bs', head', c')
    ]
    copy_buckets (indirect bs) idx head c =
        let (bs', head', c') = copy_buckets bs (idx + 1) (point_to php idx head) c in
        (indirect bs', head', c')
