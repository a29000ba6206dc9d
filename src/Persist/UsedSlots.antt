-- ===== src/Persist/UsedSlots.antt =====
-- One slot of an array that is counted without serialization, in use or not, and those behind it.
use immutable_cache_pecl.Prelude.{
  ℕ, suc, ◌≤◌, ◌≡◌, refl, sym, ◌∙◌, Bool, true, false, Option, arith, Bool-cases, inl, inr,
}
use mathlib.Core.Path.{subst}
use immutable_cache_pecl.Persist.Value.{
  Zval, is_undef, undef, scalar, string, packed, hashed, object, resource, reference, Plain, Items,
  plain,
}
use immutable_cache_pecl.Persist.Memo.{pointer_to_hash_key}
use immutable_cache_pecl.Persist.Tables.{not_both}
use immutable_cache_pecl.Persist.Calc.{Php, Calc, calc_zval}
use immutable_cache_pecl.Persist.Sealed.{
  Sealed, SealedItems, weight, weight_items, Awaits, Awaits-Grows, Awaits-le,
}
use immutable_cache_pecl.Persist.Sealing.{Done, stay}
use immutable_cache_pecl.Persist.Slots.{Slots, then-Done}

module _ {R : Type 0} (php : Php R) (serializer : Option R) (contains : ℕ → Bool) (at : ℕ → Plain)
    (inside : (ptr : ℕ) → contains ptr ≡ true → Sealed (at (pointer_to_hash_key ptr))) where
  undef_lem :
      (z : Zval) (c : Calc) → is_undef z ≡ true → calc_zval php serializer contains z c ≡ (true, c)
  unfolding calc_zval
  undef_lem undef c e = refl
  undef_lem (scalar _) c e = absurd (not_both (sym e))
  undef_lem (string _) c e = absurd (not_both (sym e))
  undef_lem (packed _ _ _) c e = absurd (not_both (sym e))
  undef_lem (hashed _ _ _) c e = absurd (not_both (sym e))
  undef_lem (object _) c e = absurd (not_both (sym e))
  undef_lem (resource _) c e = absurd (not_both (sym e))
  undef_lem (reference _) c e = absurd (not_both (sym e))

  -- a slot that may be out of use
  pub used-Done :
      (z : Zval) (c : Calc)
      → c.use_serialization ≡ false
      → (is_undef z ≡ false
          → Done php serializer contains at inside
              (Sealed (plain z))
              c
              (calc_zval php serializer contains z c).1)
      → Done php serializer contains at inside
          (is_undef z ≡ false → Sealed (plain z))
          c
          (calc_zval php serializer contains z c).1
  used-Done z c off d = elim (Bool-cases (is_undef z)) [
    | inl unused ↦
        subst
          (λ q.
            Done php serializer contains at inside (is_undef z ≡ false → Sealed (plain z)) c q.1)
          (sym (undef_lem z c unused))
          (stay php serializer contains at inside c off
            (λ used. absurd (not_both (sym unused ∙ used))))
    | inr used ↦ let e = d used in record { sealed = λ _. e.sealed; off = e.off; grows = e.grows }
  ]

  -- a slot that is used or not, and the slots behind it: `items` is what all come to
  module _ (z : Zval) (items rest : Items) (f : Calc → Bool × Calc)
      (below : weight_items rest ≤ weight_items items)
      (above : is_undef z ≡ false → weight (plain z) ≤ weight_items items)
      (both : (is_undef z ≡ false → Sealed (plain z)) → SealedItems rest → SealedItems items)
      (first : (c : Calc)
        → c.use_serialization ≡ false
        → Awaits at (suc (weight (plain z))) c.already_counted
        → (calc_zval php serializer contains z c).0 ≡ true
        → Done php serializer contains at inside
            (Sealed (plain z))
            c
            (calc_zval php serializer contains z c).1)
      (second : Slots php serializer contains at inside rest f) where
    pub slot-Done :
        (c : Calc)
        → c.use_serialization ≡ false
        → Awaits at (suc (weight_items items)) c.already_counted
        → (elim (calc_zval php serializer contains z c).0 as (λ _. Bool × Calc) [
          | true ↦ f (calc_zval php serializer contains z c).1
          | false ↦ (false, (calc_zval php serializer contains z c).1)
        ]).0
          ≡ true
        → Done php serializer contains at inside
            (SealedItems items)
            c
            (elim (calc_zval php serializer contains z c).0 as (λ _. Bool × Calc) [
              | true ↦ f (calc_zval php serializer contains z c).1
              | false ↦ (false, (calc_zval php serializer contains z c).1)
            ]).1
    slot-Done c off waits ok =
        let n = suc (weight_items items) in
        let d =
          then-Done php serializer contains at inside c (calc_zval php serializer contains z c) f ok
            (λ ok'. used-Done z c off (λ used.
              first c off
                (Awaits-le at (suc (weight (plain z))) n c.already_counted
                  (omega (arith, above used)) waits)
                ok'))
            (λ d ok'.
              second _ d.off
                (Awaits-le at (suc (weight_items rest)) n _ (omega (arith, below))
                  (Awaits-Grows at n c.already_counted _ waits d.grows))
                ok') in
        record { sealed = both d.sealed.0 d.sealed.1; off = d.off; grows = d.grows }

  pub pick-Done :
      {P : Type 0} (b : Bool) (c : Calc) (x y : Bool × Calc)
      → (elim b as (λ _. Bool × Calc) [ true ↦ x | false ↦ y ]).0 ≡ true
      → (b ≡ true → x.0 ≡ true → Done php serializer contains at inside P c x.1)
      → (b ≡ false → y.0 ≡ true → Done php serializer contains at inside P c y.1)
      → Done php serializer contains at inside P c
          (elim b as (λ _. Bool × Calc) [ true ↦ x | false ↦ y ]).1
  pick-Done true c x y ok f g = f refl ok
  pick-Done false c x y ok f g = g refl ok

  -- the slots behind one that is not in use
  pub behind-Done :
      (z : Zval) (items rest : Items) (f : Calc → Bool × Calc) (c : Calc)
      → is_undef z ≡ true
      → weight_items rest ≤ weight_items items
      → ((is_undef z ≡ false → Sealed (plain z)) → SealedItems rest → SealedItems items)
      → Slots php serializer contains at inside rest f
      → c.use_serialization ≡ false
      → Awaits at (suc (weight_items items)) c.already_counted
      → (f c).0 ≡ true
      → Done php serializer contains at inside (SealedItems items) c (f c).1
  behind-Done z items rest f c unused below both slots off waits ok =
      let d =
        slots c off
          (Awaits-le at (suc (weight_items rest)) (suc (weight_items items)) c.already_counted
            (omega (arith, below)) waits)
          ok in
      record {
        sealed = both (λ used. absurd (not_both (sym unused ∙ used))) d.sealed;
        off = d.off;
        grows = d.grows;
      }
