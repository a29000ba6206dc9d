-- ===== src/Persist/Slots.antt =====
-- The slots of an array that are counted without serialization.
use immutable_cache_pecl.Prelude.{
  ℕ, suc, ◌≤◌, ◌≡◌, refl, sym, ◌∙◌, Bool, true, false, List, Option, arith, ◌==◌, Bool-cases, inl,
  inr,
}
use immutable_cache_pecl.Persist.Value.{
  Head, Zval, is_undef, packed, hashed, Elems, no_elem, elem, Buckets, no_bucket, keyed, indexed,
  indirect, Plain, entries, Items, plain, plain_elems, plain_buckets, at_index, at_text, num_elems,
  num_buckets,
}
use immutable_cache_pecl.Persist.Memo.{pointer_to_hash_key}
use immutable_cache_pecl.Persist.Tables.{not_both}
use immutable_cache_pecl.Persist.Calc.{Php, Calc, calc_zval, calc_elems, calc_buckets}
use immutable_cache_pecl.Persist.Equations.{calc_packed, calc_hashed, after_packed, after_hashed}
use immutable_cache_pecl.Persist.Contents.{Leads}
use immutable_cache_pecl.Persist.Sealed.{
  Sealed, SealedItems, weight, weight_items, Awaits, Grows-trans,
}
use immutable_cache_pecl.Persist.Sealing.{Done, settle-Done, array-Awaits}

-- what a slot adds to the entries behind it
pub at_index-Sealed :
    (i : ℕ) (z : Zval) (p : Plain) (rest : Items)
    → (is_undef z ≡ false → Sealed p)
    → SealedItems rest
    → SealedItems (at_index i z p rest)
unfolding Sealed
at_index-Sealed i z p rest s r = elim (Bool-cases (is_undef z)) [
  | inl unused ↦ rw unused r
  | inr used ↦ rw used (s used, r)
]

pub at_text-Sealed :
    (key : List ℕ) (z : Zval) (p : Plain) (rest : Items)
    → (is_undef z ≡ false → Sealed p)
    → SealedItems rest
    → SealedItems (at_text key z p rest)
unfolding Sealed
at_text-Sealed key z p rest s r = elim (Bool-cases (is_undef z)) [
  | inl unused ↦ rw unused r
  | inr used ↦ rw used (s used, r)
]

pub at_index-weight :
    (i : ℕ) (z : Zval) (p : Plain) (rest : Items)
    → (weight_items rest ≤ weight_items (at_index i z p rest))
      × (is_undef z ≡ false → weight p ≤ weight_items (at_index i z p rest))
unfolding weight
at_index-weight i z p rest = elim (Bool-cases (is_undef z)) [
  | inl unused ↦ (rw unused (omega arith), λ used. absurd (not_both (sym unused ∙ used)))
  | inr used ↦ (rw used (omega arith), λ _. rw used (omega arith))
]

pub at_text-weight :
    (key : List ℕ) (z : Zval) (p : Plain) (rest : Items)
    → (weight_items rest ≤ weight_items (at_text key z p rest))
      × (is_undef z ≡ false → weight p ≤ weight_items (at_text key z p rest))
unfolding weight
at_text-weight key z p rest = elim (Bool-cases (is_undef z)) [
  | inl unused ↦ (rw unused (omega arith), λ used. absurd (not_both (sym unused ∙ used)))
  | inr used ↦ (rw used (omega arith), λ _. rw used (omega arith))
]

no_elems-Sealed : (zs : Elems) (i : ℕ) → (num_elems zs == 0) ≡ true → SealedItems (plain_elems zs i)
unfolding plain Sealed
no_elems-Sealed no_elem i e = tt
no_elems-Sealed (elem z zs) i e = absurd (ground arith)

no_buckets-Sealed : (bs : Buckets) → (num_buckets bs == 0) ≡ true → SealedItems (plain_buckets bs)
unfolding plain Sealed
no_buckets-Sealed no_bucket e = tt
no_buckets-Sealed (keyed k z bs) e = absurd (ground arith)
no_buckets-Sealed (indexed h z bs) e = absurd (ground arith)
no_buckets-Sealed (indirect bs) e = absurd (ground arith)

module _ {R : Type 0} (php : Php R) (serializer : Option R) (contains : ℕ → Bool) (at : ℕ → Plain)
    (inside : (ptr : ℕ) → contains ptr ≡ true → Sealed (at (pointer_to_hash_key ptr))) where
  -- two steps, the second of which is taken if the first one succeeds
  pub then-Done :
      {P Q : Type 0} (c : Calc) (q : Bool × Calc) (f : Calc → Bool × Calc)
      → (elim q.0 as (λ _. Bool × Calc) [ true ↦ f q.1 | false ↦ (false, q.1) ]).0 ≡ true
      → (q.0 ≡ true → Done php serializer contains at inside P c q.1)
      → (Done php serializer contains at inside P c q.1
          → (f q.1).0 ≡ true
          → Done php serializer contains at inside Q q.1 (f q.1).1)
      → Done php serializer contains at inside
          (P × Q)
          c
          (elim q.0 as (λ _. Bool × Calc) [ true ↦ f q.1 | false ↦ (false, q.1) ]).1
  then-Done c (true, c₁) f ok first second =
      let d = first refl in
      let e = second d ok in
      record {
        sealed = (d.sealed, e.sealed);
        off = e.off;
        grows =
            Grows-trans at c.already_counted c₁.already_counted (f c₁).1.already_counted d.grows
              e.grows;
      }
  then-Done c (false, c₁) f ok first second = absurd (not_both (sym ok))

  -- what a calculation of the slots is to come to
  abbrev pub Slots : Items → (Calc → Bool × Calc) → Type 0
  Slots items f =
      (c : Calc)
      → c.use_serialization ≡ false
      → Awaits at (suc (weight_items items)) c.already_counted
      → (f c).0 ≡ true
      → Done php serializer contains at inside (SealedItems items) c (f c).1

  pub packed-Done :
      (ptr : ℕ) (head : Head) (zs : Elems) (c : Calc)
      → Leads at ptr (entries (plain_elems zs 0))
      → c.use_serialization ≡ false
      → Awaits at (suc (weight (entries (plain_elems zs 0)))) c.already_counted
      → Slots (plain_elems zs 0) (calc_elems php serializer contains zs)
      → (calc_zval php serializer contains (packed ptr head zs) c).0 ≡ true
      → Done php serializer contains at inside
          (Sealed (entries (plain_elems zs 0)))
          c
          (calc_zval php serializer contains (packed ptr head zs) c).1
  unfolding plain
  packed-Done ptr head zs c leads off waits slots =
      settle-Done php serializer contains at inside (packed ptr head zs) ptr (plain_elems zs 0) c
        refl leads off waits (after_packed php serializer contains head zs)
        (calc_packed php serializer contains c _ ptr head zs refl) (λ c'. refl)
        (λ ok. elim (Bool-cases (num_elems zs == 0)) [
          | inl bare ↦
              rw bare
                (record { sealed = no_elems-Sealed zs 0 bare; off = off; grows = λ k met. inl met })
          | inr more ↦
              let d =
                slots _ off
                  (array-Awaits php serializer contains at inside ptr (plain_elems zs 0) c leads
                    waits)
                  (sym (rw more refl) ∙ ok) in
              rw more (record { sealed = d.sealed; off = d.off; grows = d.grows })
        ])

  pub hashed-Done :
      (ptr : ℕ) (head : Head) (bs : Buckets) (c : Calc)
      → Leads at ptr (entries (plain_buckets bs))
      → c.use_serialization ≡ false
      → Awaits at (suc (weight (entries (plain_buckets bs)))) c.already_counted
      → Slots (plain_buckets bs) (calc_buckets php serializer contains bs)
      → (calc_zval php serializer contains (hashed ptr head bs) c).0 ≡ true
      → Done php serializer contains at inside
          (Sealed (entries (plain_buckets bs)))
          c
          (calc_zval php serializer contains (hashed ptr head bs) c).1
  unfolding plain
  hashed-Done ptr head bs c leads off waits slots =
      settle-Done php serializer contains at inside (hashed ptr head bs) ptr (plain_buckets bs) c
        refl leads off waits (after_hashed php serializer contains head bs)
        (calc_hashed php serializer contains c _ ptr head bs refl) (λ c'. refl)
        (λ ok. elim (Bool-cases (num_buckets bs == 0)) [
          | inl bare ↦
              rw bare
                (record { sealed = no_buckets-Sealed bs bare; off = off; grows = λ k met. inl met })
          | inr more ↦
              let d =
                slots _ off
                  (array-Awaits php serializer contains at inside ptr (plain_buckets bs) c leads
                    waits)
                  (sym (rw more refl) ∙ ok) in
              rw more (record { sealed = d.sealed; off = d.off; grows = d.grows })
        ])
