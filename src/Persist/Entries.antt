-- ===== src/Persist/Entries.antt =====
-- immutable_cache_persist.c: `immutable_cache_persist` and `immutable_cache_unpersist`. The table of
-- pointers that were unpersisted before stays empty, and is left out.
use immutable_cache_pecl.Prelude.{
  ℕ, Bool, true, false, not, ◌&&◌, ◌||◌, List, [], Option, none, some, ◌==◌, if◌then◌else◌,
}
use immutable_cache_pecl.Cache.Entry.{Entry}
use immutable_cache_pecl.Cache.Locks.{Process, protect}
use immutable_cache_pecl.Persist.Value.{Zval, undef, scalar, packed, hashed, object, reference}
use immutable_cache_pecl.Persist.Calc.{Php, Calc, calc}
use immutable_cache_pecl.Persist.Copy.{
  Shared, value, serialized, Copy, alloc, copy_cstr, get_or_copy_zstr, copy_zval,
}

abbrev pub is_array : Zval → Bool
is_array (packed _ _ _) = true
is_array (hashed _ _ _) = true
is_array _ = false

abbrev pub is_object : Zval → Bool
is_object (object _) = true
is_object _ = false

abbrev pub is_some : {A : Type 0} → Option A → Bool
is_some none = false
is_some (some a) = true

-- `immutable_cache_persist_init_context`, with what is decided before the calculation
abbrev pub init_context : (memoization_needed : Bool) → (use_serialization : Bool) → Calc
init_context memoization_needed use_serialization = record {
  size = 0;
  already_counted = if memoization_needed then some [] else none;
  use_serialization = use_serialization;
  serialized_str = none;
}

abbrev pub memoization : {R : Type 0} → Option R → Zval → Bool
memoization serializer z = not (is_some serializer) && is_array z

abbrev pub serialization : {R : Type 0} → Option R → Zval → Bool
serialization serializer z = is_object z || is_some serializer && is_array z

module _ {R : Type 0} (php : Php R) (serializer : Option R) (contains : ℕ → Bool) where
  -- the part of `immutable_cache_persist` before the allocation
  unfoldable pub prepare : Entry Zval → Option Calc
  prepare orig =
      let (ok, c) =
        calc php serializer contains orig
          (init_context (memoization serializer orig.val) (serialization serializer orig.val)) in
      elim ok [
        | true ↦ some c
        | false ↦ elim c.use_serialization [
          | false ↦ none
          | true ↦
              let (ok', c') = calc php serializer contains orig (init_context false true) in
              elim ok' [ true ↦ some c' | false ↦ none ]
        ]
      ]

  -- `immutable_cache_persist_copy_serialize`; the value is returned as it is where the assertion that
  -- there is a serialized string fails
  unfoldable pub copy_serialize : Option (List ℕ) → Zval → Copy → Shared × Copy
  copy_serialize serialized_str z c = elim serialized_str [
    | none ↦ (value z, c)
    | some buf ↦ let (str, c₁) = copy_cstr php buf 0 c in (serialized str, c₁)
  ]

  -- `immutable_cache_persist_copy_zval`
  unfoldable pub copy_value : Calc → Zval → Copy → Shared × Copy
  copy_value ctxt undef c = (value undef, c)
  copy_value ctxt (scalar n) c = (value (scalar n), c)
  copy_value ctxt z c =
      let (z', c') = copy_zval php contains z c in
      if ctxt.use_serialization then copy_serialize ctxt.serialized_str z c else (value z', c')

  -- `immutable_cache_persist_copy`
  unfoldable pub persist_copy : Calc → Entry Zval → Copy → Entry Shared × Copy
  persist_copy ctxt orig c =
      let (key, c₁) = get_or_copy_zstr php contains orig.key (alloc php php.sizeof_entry c) in
      let (val, c₂) = copy_value ctxt orig.val c₁ in
      (
        record {
          addr = c.alloc_cur;
          key = key;
          val = val;
          nhits = orig.nhits;
          ctime = orig.ctime;
          atime = orig.atime;
          mem_size = orig.mem_size;
        },
        c₂,
      )

  -- the context when the copy starts
  abbrev pub start : ℕ → Entry Zval → (use_serialization : Bool) → Copy
  start address orig use_serialization = record {
    alloc_cur = address;
    already_allocated =
        if memoization serializer orig.val && not use_serialization then some [] else none;
  }

  -- `immutable_cache_persist`; `malloc` is `immutable_cache_sma_malloc`
  unfoldable pub persist :
      {S : Type 0} → (S → ℕ → ℕ × S) → S → Entry Zval → Option (Entry Shared) × S
  persist malloc sma orig = elim (prepare orig) [
    | none ↦ (none, sma)
    | some ctxt ↦
        let (address, sma') = malloc sma ctxt.size in
        let (entry, c) = persist_copy ctxt orig (start address orig ctxt.use_serialization) in
        if address == 0 then (none, sma') else (some (record entry { mem_size = ctxt.size }), sma')
  ]

  -- what `immutable_cache_persist` does to the process; `malloc_process` is what the allocation does
  unfoldable pub persist_process :
      {S : Type 0}
      → (S → ℕ → ℕ × S)
      → (malloc_process : S → ℕ → Process → Process) → S
      → Entry Zval
      → Process
      → Process
  persist_process malloc malloc_process sma orig p = elim (prepare orig) [
    | none ↦ p
    | some ctxt ↦
        let p₁ = malloc_process sma ctxt.size p in
        if (malloc sma ctxt.size).0 == 0 then p₁ else protect true (protect false p₁)
  ]

-- `immutable_cache_unpersist_zval`; `none` is a fatal error
unfoldable pub unpersist_zval : {R : Type 0} → Php R → Zval → Option Zval
unpersist_zval php (packed ptr head zs) =
    if head.num_elements == 0 then some php.empty_array else some (packed ptr head zs)
unpersist_zval php (hashed ptr head bs) =
    if head.num_elements == 0 then some php.empty_array else some (hashed ptr head bs)
unpersist_zval php (reference ptr) = none
unpersist_zval php z = some z

-- `immutable_cache_unpersist_serialized`: the value, and whether it was successful
unfoldable pub unpersist_serialized : {R : Type 0} → Php R → Option R → List ℕ → Zval × Bool
unpersist_serialized php serializer str = elim (php.unserialize serializer str) [
  | some z ↦ (z, true)
  | none ↦ (php.null, false)
]

-- `immutable_cache_unpersist`
unfoldable pub unpersist : {R : Type 0} → Php R → Option R → Shared → Option (Zval × Bool)
unpersist php serializer (serialized str) = some (unpersist_serialized php serializer str.val)
unpersist php serializer (value z) = elim (unpersist_zval php z) [
  | none ↦ none
  | some r ↦ some (r, true)
]
