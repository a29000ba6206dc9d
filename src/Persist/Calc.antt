-- ===== src/Persist/Calc.antt =====
-- immutable_cache_persist.c: the size that a value takes in shared memory.
use immutable_cache_pecl.Prelude.{
  ℕ, Bool, true, false, List, ◌∷◌, Option, none, some, length, ◌==◌, if◌then◌else◌,
}
use immutable_cache_pecl.Cache.Entry.{ZendString, Entry}
use immutable_cache_pecl.Sma.Words.{add64}
use immutable_cache_pecl.Persist.Value.{
  Head, Zval, is_undef, undef, scalar, string, packed, hashed, object, resource, reference, Elems,
  no_elem, elem, Buckets, no_bucket, keyed, indexed, indirect, num_elems, num_buckets,
}
use immutable_cache_pecl.Persist.Memo.{pointer_to_hash_key, counted}

-- What PHP provides: sizes, the string hash, and the serializers (`none` for PHP's own one).
-- `used_size` is `HT_USED_SIZE` and `packed_used_size` is `HT_PACKED_USED_SIZE`, of a table with so
-- many slots.
pub record Php (R : Type 0) : Type 0 where
  pub aligned : ℕ → ℕ
  pub str_size : ℕ → ℕ
  pub sizeof_table : ℕ
  pub sizeof_entry : ℕ
  pub used_size : Head → ℕ → ℕ
  pub packed_used_size : Head → ℕ → ℕ
  pub min_mask : ℕ
  pub invalid_idx : ℕ
  pub hash : List ℕ → ℕ
  pub serialize : Option R → Zval → Option (List ℕ)
  pub unserialize : Option R → List ℕ → Option Zval
  pub empty_array : Zval
  pub null : Zval

-- The part of `immutable_cache_persist_context_t` that the calculation uses. `already_counted` is
-- absent unless memoization is needed.
pub record Calc : Type 0 where
  pub size : ℕ
  pub already_counted : Option (List ℕ)
  pub use_serialization : Bool
  pub serialized_str : Option (List ℕ)

-- `immutable_cache_persist_calc_memoize`
unfoldable pub calc_memoize : Calc → ℕ → Bool × Calc
unfolding pointer_to_hash_key
calc_memoize c ptr = elim (c.already_counted) [
  | none ↦ (false, c)
  | some seen ↦
      let k = pointer_to_hash_key ptr in
      if counted k seen then (true, c) else (false, record c { already_counted = some (k ∷ seen) })
]

-- `ADD_SIZE`
abbrev pub add_size : {R : Type 0} → Php R → ℕ → Calc → Calc
add_size php sz c = record c { size = add64 c.size (php.aligned sz) }

-- Objects and references: serialization is needed.
abbrev pub ask_serialization : Calc → Bool × Calc
ask_serialization c = (false, record c { use_serialization = true })

module _ {R : Type 0} (php : Php R) (serializer : Option R) (contains : ℕ → Bool) where
  -- `immutable_cache_persist_calc_str`
  unfoldable pub calc_str : ZendString → Calc → Calc
  calc_str s c =
      if contains s.ptr
      then c
      else (let (seen, c₁) = calc_memoize c s.ptr in
          if seen then c₁ else add_size php (php.str_size (length s.val)) c₁)

  -- `immutable_cache_persist_calc_serialize`
  unfoldable pub calc_serialize : Zval → Calc → Bool × Calc
  calc_serialize z c = elim (php.serialize serializer z) [
    | none ↦ (false, c)
    | some buf ↦
        (true, add_size php (php.str_size (length buf)) (record c { serialized_str = some buf }))
  ]

  -- What `immutable_cache_persist_calc_zval` asks of a value with an address before it goes on: the
  -- result is there (`some`) if the value is serialized, in shared memory, or counted already.
  unfoldable pub calc_early : Zval → ℕ → Calc → Option Bool × Calc
  calc_early z ptr c =
      if c.use_serialization
      then (let (ok, c₁) = calc_serialize z c in (some ok, c₁))
      else if contains ptr
      then (some true, c)
      else (let (seen, c₁) = calc_memoize c ptr in if seen then (some true, c₁) else (none, c₁))

  unfoldable mutual
    -- `immutable_cache_persist_calc_zval`; the cases of an array are `immutable_cache_persist_calc_ht`
    pub calc_zval : Zval → Calc → Bool × Calc
    calc_zval undef c = (true, c)
    calc_zval (scalar n) c = (true, c)
    calc_zval (string s) c =
        let (early, c₁) = calc_early (string s) s.ptr c in
        elim early [
          | some ok ↦ (ok, c₁)
          | none ↦ (true, add_size php (php.str_size (length s.val)) c₁)
        ]
    calc_zval (packed ptr head zs) c =
        let (early, c₁) = calc_early (packed ptr head zs) ptr c in
        elim early [
          | some ok ↦ (ok, c₁)
          | none ↦
              if num_elems zs == 0
              then (true, add_size php php.sizeof_table c₁)
              else calc_elems zs (
                  add_size php (php.packed_used_size head (num_elems zs))
                    (add_size php php.sizeof_table c₁))
        ]
    calc_zval (hashed ptr head bs) c =
        let (early, c₁) = calc_early (hashed ptr head bs) ptr c in
        elim early [
          | some ok ↦ (ok, c₁)
          | none ↦
              if num_buckets bs == 0
              then (true, add_size php php.sizeof_table c₁)
              else calc_buckets bs (
                  add_size php (php.used_size head (num_buckets bs))
                    (add_size php php.sizeof_table c₁))
        ]
    calc_zval (object ptr) c =
        let (early, c₁) = calc_early (object ptr) ptr c in
        elim early [ some ok ↦ (ok, c₁) | none ↦ ask_serialization c₁ ]
    calc_zval (reference ptr) c =
        let (early, c₁) = calc_early (reference ptr) ptr c in
        elim early [ some ok ↦ (ok, c₁) | none ↦ ask_serialization c₁ ]
    calc_zval (resource ptr) c =
        let (early, c₁) = calc_early (resource ptr) ptr c in
        elim early [ some ok ↦ (ok, c₁) | none ↦ (false, c₁) ]

    pub calc_elems : Elems → Calc → Bool × Calc
    calc_elems no_elem c = (true, c)
    calc_elems (elem z zs) c =
        let (ok, c₁) = calc_zval z c in elim ok [ true ↦ calc_elems zs c₁ | false ↦ (false, c₁) ]

    pub calc_buckets : Buckets → Calc → Bool × Calc
    calc_buckets no_bucket c = (true, c)
    calc_buckets (keyed k z bs) c = elim (is_undef z) [
      | true ↦ calc_buckets bs c
      | false ↦
          let (ok, c₁) = calc_zval z (calc_str k c) in
          elim ok [ true ↦ calc_buckets bs c₁ | false ↦ (false, c₁) ]
    ]
    calc_buckets (indexed h z bs) c = elim (is_undef z) [
      | true ↦ calc_buckets bs c
      | false ↦
          let (ok, c₁) = calc_zval z c in
          elim ok [ true ↦ calc_buckets bs c₁ | false ↦ (false, c₁) ]
    ]
    calc_buckets (indirect bs) c = ask_serialization c

  -- `immutable_cache_persist_calc`
  unfoldable pub calc : Entry Zval → Calc → Bool × Calc
  calc entry c = calc_zval entry.val (calc_str entry.key (add_size php php.sizeof_entry c))
