-- ===== src/Persist/Refusals.antt =====
-- Values that `immutable_cache_persist` refuses.
use immutable_cache_pecl.Prelude.{
  ℕ, ◌≡◌, refl, ap, ◌∙◌, Bool, true, false, not, Option, none, some, inl, inr, Bool-cases, arith,
  ◌||◌, ◌&&◌,
}
use immutable_cache_pecl.Cache.Entry.{ZendString, Entry}
use immutable_cache_pecl.Persist.Value.{
  Zval, is_counted, undef, scalar, string, packed, hashed, object, resource, reference,
}
use immutable_cache_pecl.Persist.Calc.{
  Php, Calc, calc, calc_str, calc_early, calc_memoize, calc_serialize, add_size,
}
use immutable_cache_pecl.Persist.Equations.{calc_resource}
use immutable_cache_pecl.Persist.Mode.{calc_serialized}
use immutable_cache_pecl.Persist.Reach.{calc_str_mode, serializes}
use immutable_cache_pecl.Persist.Prepared.{never_both, decided}
use immutable_cache_pecl.Persist.Entries.{
  init_context, is_some, is_array, is_object, memoization, serialization, prepare, persist,
}

module _ {R : Type 0} (php : Php R) (serializer : Option R) (contains : ℕ → Bool) where
  -- a resource, or a value that is to be serialized and whose serializer fails
  pub data Refused (z : Zval) : Type 0 where
    resource_outside : (ptr : ℕ) → z ≡ resource ptr → contains ptr ≡ false → Refused z
    unserializable :
        serialization serializer z ≡ true → php.serialize serializer z ≡ none → Refused z

  counted_if : (z : Zval) (b : Bool) → (is_object z || b && is_array z) ≡ true → is_counted z ≡ true
  counted_if undef b e = ground arith
  counted_if (scalar _) b e = ground arith
  counted_if (string _) b e = refl
  counted_if (packed _ _ _) b e = refl
  counted_if (hashed _ _ _) b e = refl
  counted_if (object _) b e = refl
  counted_if (resource _) b e = refl
  counted_if (reference _) b e = refl

  and_false : (b : Bool) → (b && false) ≡ false
  and_false true = refl
  and_false false = refl

  -- a resource that is not in shared memory, when nothing is memoized
  early_resource :
      (ptr : ℕ) (c : Calc)
      → c.use_serialization ≡ false
      → c.already_counted ≡ none
      → contains ptr ≡ false
      → calc_early php serializer contains (resource ptr) ptr c ≡ (none, c)
  unfolding calc_early calc_memoize
  early_resource ptr c u a outside = rw (u, outside, a) refl

  -- the key leaves the modes as they are
  key_modes :
      (s : ZendString) (n : ℕ)
      → ((calc_str php serializer contains s
            (add_size php n (init_context false false))).use_serialization
          ≡ false)
        × ((calc_str php serializer contains s
              (add_size php n (init_context false false))).already_counted
            ≡ none)
  unfolding calc_str calc_memoize
  key_modes s n = elim (Bool-cases (contains s.ptr)) [
    | inl inside ↦ (rw inside refl, rw inside refl)
    | inr free ↦ (rw free refl, rw free refl)
  ]

  -- the first calculation refuses a resource, and does not ask for serialization
  calc_resource_fails :
      (orig : Entry Zval) (ptr : ℕ)
      → contains ptr ≡ false
      → decided php serializer contains orig (
          calc php serializer contains
            (record orig { val = resource ptr })
            (init_context false false))
        ≡ none
  unfolding calc
  calc_resource_fails orig ptr outside =
      let c =
        calc_str php serializer contains orig.key
          (add_size php php.sizeof_entry (init_context false false)) in
      let (u, a) = key_modes orig.key php.sizeof_entry in
      ap (decided php serializer contains orig)
        (calc_resource php serializer contains c (none, c) ptr (early_resource ptr c u a outside))
      ∙ ap
          (λ b. elim b as (λ _. Option Calc) [
            | false ↦ none
            | true ↦ elim (serializes php serializer contains orig).0 as (λ _. Option Calc) [
              | true ↦ some (serializes php serializer contains orig).1
              | false ↦ none
            ]
          ])
          u

  prepare_resource :
      (orig : Entry Zval) (ptr : ℕ)
      → orig.val ≡ resource ptr
      → contains ptr ≡ false
      → prepare php serializer contains orig ≡ none
  unfolding prepare
  prepare_resource orig ptr e outside =
      let first = λ (z : Zval) (memo : Bool) (ser : Bool).
        decided php serializer contains orig
          (calc php serializer contains (record orig { val = z }) (init_context memo ser)) in
      ap (λ z. first z (memoization serializer z) (serialization serializer z)) e
      ∙ ap (λ m. first (resource ptr) m (serialization serializer (resource ptr)))
          (and_false (not (is_some serializer)))
      ∙ ap (λ b. first (resource ptr) false b) (and_false (is_some serializer))
      ∙ calc_resource_fails orig ptr outside

  -- the calculation in serialization mode fails
  serializes_unserializable :
      (orig : Entry Zval)
      → serialization serializer orig.val ≡ true
      → php.serialize serializer orig.val ≡ none
      → (c : Calc) × (c.use_serialization ≡ true)
        × (serializes php serializer contains orig ≡ (false, c))
  unfolding calc calc_serialize
  serializes_unserializable orig so e =
      let c =
        calc_str php serializer contains orig.key
          (add_size php php.sizeof_entry (init_context false true)) in
      let mode =
        ap (λ (x : Calc). x.use_serialization)
          (calc_str_mode php serializer contains orig.key php.sizeof_entry) in
      (
        c,
        mode,
        calc_serialized php serializer contains orig.val c
              (counted_if orig.val (is_some serializer) so) mode
            ∙ rw (calc_serialize, e) refl,
      )

  again_fails :
      (orig : Entry Zval) (c : Calc)
      → c.use_serialization ≡ true
      → serializes php serializer contains orig ≡ (false, c)
      → decided php serializer contains orig (false, c) ≡ none
  again_fails orig c mode fails =
      ap
        (λ u. elim u as (λ _. Option Calc) [
          | false ↦ none
          | true ↦ elim (serializes php serializer contains orig).0 as (λ _. Option Calc) [
            | true ↦ some (serializes php serializer contains orig).1
            | false ↦ none
          ]
        ])
        mode
      ∙ ap (λ (q : Bool × Calc). elim q.0 as (λ _. Option Calc) [ true ↦ some q.1 | false ↦ none ])
          fails

  prepare_unserializable :
      (orig : Entry Zval)
      → serialization serializer orig.val ≡ true
      → php.serialize serializer orig.val ≡ none
      → prepare php serializer contains orig ≡ none
  unfolding prepare
  prepare_unserializable orig so e =
      let (c, mode, fails) = serializes_unserializable orig so e in
      ap (λ i. decided php serializer contains orig (calc php serializer contains orig i))
        (rw (so, never_both php serializer contains orig.val so) refl)
      ∙ ap (decided php serializer contains orig) fails
      ∙ again_fails orig c mode fails

  not_prepared :
      {S : Type 0}
      → (malloc : S → ℕ → ℕ × S) (sma : S) (orig : Entry Zval)
      → prepare php serializer contains orig ≡ none
      → persist php serializer contains malloc sma orig ≡ (none, sma)
  unfolding persist
  not_prepared malloc sma orig e = rw (persist, e) refl

  -- Persisting a resource that is not in shared memory, or a value that is to be serialized and
  -- whose serializer fails, makes no entry and leaves the allocator as it was.
  pub persist-Refused :
      {S : Type 0}
      → (malloc : S → ℕ → ℕ × S) (sma : S) (orig : Entry Zval) → Refused orig.val
      → persist php serializer contains malloc sma orig ≡ (none, sma)
  persist-Refused malloc sma orig (resource_outside ptr e outside) =
      not_prepared malloc sma orig (prepare_resource orig ptr e outside)
  persist-Refused malloc sma orig (unserializable so e) =
      not_prepared malloc sma orig (prepare_unserializable orig so e)
