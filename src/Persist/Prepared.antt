-- ===== src/Persist/Prepared.antt =====
-- How the context of a copy was prepared.
use immutable_cache_pecl.Prelude.{
  ℕ, ◌≡◌, ◌⊎◌, refl, ap, sym, ◌∙◌, Bool, true, false, not, ◌&&◌, ◌||◌, Option, none, some,
  Bool-cases, inl, inr,
}
use mathlib.Core.Option.{some-injective, none-ne-some}
use immutable_cache_pecl.Cache.Entry.{Entry}
use immutable_cache_pecl.Persist.Value.{
  Zval, undef, scalar, string, packed, hashed, object, resource, reference,
}
use immutable_cache_pecl.Persist.Calc.{Php, Calc, calc}
use immutable_cache_pecl.Persist.Tables.{not_both}
use immutable_cache_pecl.Persist.Entries.{
  is_object, is_array, is_some, init_context, memoization, serialization, prepare,
}

module _ {R : Type 0} (php : Php R) (serializer : Option R) (contains : ℕ → Bool) where
  -- How a context was prepared: values were counted one by one, or the whole is serialized.
  pub data Prepared (orig : Entry Zval) (ctxt : Calc) : Type 0 where
    counting :
        serialization serializer orig.val ≡ false
        → ctxt
          ≡ (calc php serializer contains orig
              (init_context (memoization serializer orig.val) false)).1
        → (calc php serializer contains orig
            (init_context (memoization serializer orig.val) false)).0
          ≡ true
        → Prepared orig ctxt
    serializing :
        ctxt ≡ (calc php serializer contains orig (init_context false true)).1
        → (calc php serializer contains orig (init_context false true)).0 ≡ true
        → Prepared orig ctxt

  or_and : (a b c : Bool) → (a ≡ true → c ≡ false) → (a || (b && c)) ≡ true → (not b && c) ≡ false
  or_and a true c f e = refl
  or_and true false c f e = f refl
  or_and false false c f e = absurd (not_both (sym e))

  object_no_array : (z : Zval) → is_object z ≡ true → is_array z ≡ false
  object_no_array undef e = refl
  object_no_array (scalar _) e = refl
  object_no_array (string _) e = refl
  object_no_array (packed _ _ _) e = absurd (not_both (sym e))
  object_no_array (hashed _ _ _) e = absurd (not_both (sym e))
  object_no_array (object _) e = refl
  object_no_array (resource _) e = refl
  object_no_array (reference _) e = refl

  pub never_both : (z : Zval) → serialization serializer z ≡ true → memoization serializer z ≡ false
  never_both z e = or_and (is_object z) (is_some serializer) (is_array z) (object_no_array z) e

  -- `prepare`, from what the first calculation returns
  abbrev pub decided : Entry Zval → Bool × Calc → Option Calc
  decided orig q =
      let (ok', c') = calc php serializer contains orig (init_context false true) in
      elim q.0 [
        | true ↦ some q.1
        | false ↦ elim q.1.use_serialization [
          | false ↦ none
          | true ↦ elim ok' [ true ↦ some c' | false ↦ none ]
        ]
      ]

  retried :
      (q : Bool × Calc) (ctxt : Calc)
      → (elim q.0 as (λ _. Option Calc) [ true ↦ some q.1 | false ↦ none ]) ≡ some ctxt
      → (ctxt ≡ q.1) × (q.0 ≡ true)
  retried (true, c) ctxt e = (sym (some-injective _ _ e), refl)
  retried (false, c) ctxt e = absurd (none-ne-some _ e)

  decided-Prepared :
      (orig : Entry Zval) (ctxt : Calc) (q : Bool × Calc)
      → decided orig q ≡ some ctxt
      → ((ctxt ≡ q.1) × (q.0 ≡ true)) ⊎ Prepared orig ctxt
  decided-Prepared orig ctxt (true, c) e = inl (sym (some-injective _ _ e), refl)
  decided-Prepared orig ctxt (false, c) e = elim (Bool-cases c.use_serialization) [
    | inl so ↦
        let (is, ok) =
          retried (calc php serializer contains orig (init_context false true)) ctxt
            (sym (rw so refl) ∙ e) in
        inr (serializing is ok)
    | inr otherwise ↦ absurd (none-ne-some _ (sym (rw otherwise refl) ∙ e))
  ]

  pub prepare-Prepared :
      (orig : Entry Zval) (ctxt : Calc)
      → prepare php serializer contains orig ≡ some ctxt
      → Prepared orig ctxt
  unfolding prepare
  prepare-Prepared orig ctxt e = elim (Bool-cases (serialization serializer orig.val)) [
    | inl so ↦
        elim (decided-Prepared orig ctxt
          (calc php serializer contains orig (init_context false true))
          (sym (
              ap (λ i. decided orig (calc php serializer contains orig i))
                (rw (so, never_both orig.val so) refl))
            ∙ e)) [ inl (is, ok) ↦ serializing is ok | inr p ↦ p ]
    | inr otherwise ↦
        elim (decided-Prepared orig ctxt
          (calc php serializer contains orig (init_context (memoization serializer orig.val) false))
          (sym (ap (λ i. decided orig (calc php serializer contains orig i)) (rw otherwise refl))
            ∙ e)) [ inl (is, ok) ↦ counting otherwise is ok | inr p ↦ p ]
  ]
