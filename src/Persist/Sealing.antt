-- ===== src/Persist/Sealing.antt =====
-- What is counted without serialization is sealed.
use immutable_cache_pecl.Prelude.{
  ℕ, suc, ◌≡◌, ◌⊎◌, ap, sym, ◌∙◌, Bool, true, false, Option, none, some, arith, Bool-cases,
  Option-cases, inl, inr,
}
use mathlib.Core.Path.{subst}
use immutable_cache_pecl.Cache.Entry.{ZendString}
use immutable_cache_pecl.Persist.Value.{Zval, string, Plain, text, entries, Items, plain, foreign}
use immutable_cache_pecl.Persist.Memo.{pointer_to_hash_key, counted}
use immutable_cache_pecl.Persist.Tables.{note, not_both}
use immutable_cache_pecl.Persist.Calc.{Php, Calc, calc_memoize, calc_early, calc_str, calc_zval}
use immutable_cache_pecl.Persist.Equations.{calc_key, calc_string}
use immutable_cache_pecl.Persist.Contents.{Leads, Text}
use immutable_cache_pecl.Persist.Sealed.{
  Sealed, SealedItems, weight, weight_items, met_in, Awaits, Grows, Grows-trans, Awaits-le,
  Awaits-note, Grows-note,
}

module _ {R : Type 0} (php : Php R) (serializer : Option R) (contains : ℕ → Bool) where
  abbrev pub noted : ℕ → Calc → Calc
  noted ptr c = record c { already_counted = note (pointer_to_hash_key ptr) c.already_counted }

  -- what is found at an address
  data Looked (z : Zval) (ptr : ℕ) (c : Calc) : Type 0 where
    settled :
        calc_early php serializer contains z ptr c ≡ (some true, c)
        → (contains ptr ≡ true) ⊎ (met_in (pointer_to_hash_key ptr) c.already_counted ≡ true)
        → Looked z ptr c
    going : calc_early php serializer contains z ptr c ≡ (none, noted ptr c) → Looked z ptr c

  looked : (z : Zval) (ptr : ℕ) (c : Calc) → c.use_serialization ≡ false → Looked z ptr c
  unfolding calc_early calc_memoize
  looked z ptr c off = elim (Bool-cases (contains ptr)) [
    | inl inside ↦ settled (rw (off, inside)) (inl inside)
    | inr outside ↦ elim (Option-cases c.already_counted) [
      | inl is ↦ going (rw (off, outside, is))
      | inr (xs, is) ↦ elim (Bool-cases (counted (pointer_to_hash_key ptr) xs)) [
        | inl there ↦ settled (rw (off, outside, is, there)) (inr (rw is there))
        | inr new ↦ going (rw (off, outside, is, new))
      ]
    ]
  ]

  module _ (at : ℕ → Plain)
      (inside : (ptr : ℕ) → contains ptr ≡ true → Sealed (at (pointer_to_hash_key ptr))) where
    -- a calculation that went on without serialization
    pub record Done (P : Type 0) (c c' : Calc) : Type 0 where
      pub sealed : P
      pub off : c'.use_serialization ≡ false
      pub grows : Grows at c.already_counted c'.already_counted

    pub stay : {P : Type 0} (c : Calc) → c.use_serialization ≡ false → P → Done P c c
    stay c off p = record { sealed = p; off = off; grows = λ k met. inl met }

    -- what was met before is sealed
    settled-Sealed :
        (z : Zval) (ptr : ℕ) (c : Calc)
        → Leads at ptr (plain z)
        → Awaits at (suc (weight (plain z))) c.already_counted
        → (contains ptr ≡ true) ⊎ (met_in (pointer_to_hash_key ptr) c.already_counted ≡ true)
        → Sealed (plain z)
    settled-Sealed z ptr c leads waits (inl in_memory) =
        subst Sealed (sym leads) (inside ptr in_memory)
    settled-Sealed z ptr c leads waits (inr met) = elim (waits (pointer_to_hash_key ptr) met) [
      | inl it ↦ subst Sealed (sym leads) it
      | inr heavy ↦ absurd (omega (arith, heavy, ap weight leads))
    ]

    pub str-Done :
        (s : ZendString) (c : Calc)
        → Text at s
        → c.use_serialization ≡ false
        → Done (Unit {0}) c (calc_str php serializer contains s c)
    unfolding Sealed
    str-Done s c t off = elim (looked (string s) s.ptr c off) [
      | settled e why ↦ rw (calc_key php serializer contains c _ s off e) (stay c off tt)
      | going e ↦ rw (calc_key php serializer contains c _ s off e) (record {
        sealed = tt;
        off = off;
        grows = Grows-note at s.ptr (text s.val) c.already_counted t tt;
      })
    ]

    pub string-Done :
        (s : ZendString) (c : Calc)
        → Text at s
        → c.use_serialization ≡ false
        → Done (Sealed (text s.val)) c (calc_zval php serializer contains (string s) c).1
    unfolding Sealed
    string-Done s c t off = elim (looked (string s) s.ptr c off) [
      | settled e why ↦ rw (calc_string php serializer contains c _ s e) (stay c off tt)
      | going e ↦ rw (calc_string php serializer contains c _ s e) (record {
        sealed = tt;
        off = off;
        grows = Grows-note at s.ptr (text s.val) c.already_counted t tt;
      })
    ]

    -- an array: `rest` is what its slots come to
    array-Done :
        (ptr : ℕ) (items : Items) (c c' : Calc)
        → Leads at ptr (entries items)
        → Done (SealedItems items) (noted ptr c) c'
        → Done (Sealed (entries items)) c c'
    unfolding Sealed
    array-Done ptr items c c' leads d = record {
      sealed = d.sealed;
      off = d.off;
      grows =
          Grows-trans at c.already_counted (noted ptr c).already_counted c'.already_counted
            (Grows-note at ptr (entries items) c.already_counted leads d.sealed) d.grows;
    }

    pub array-Awaits :
        (ptr : ℕ) (items : Items) (c : Calc)
        → Leads at ptr (entries items)
        → Awaits at (suc (weight (entries items))) c.already_counted
        → Awaits at (suc (weight_items items)) (noted ptr c).already_counted
    unfolding weight
    array-Awaits ptr items c leads waits =
        Awaits-note at (suc (weight_items items)) ptr (entries items) c.already_counted leads
          (omega arith)
          (Awaits-le at (suc (weight_items items)) (suc (suc (weight_items items)))
            c.already_counted (omega arith) waits)

    -- a value of an address that is an array: `after` is what follows the look at the address
    pub settle-Done :
        (z : Zval) (ptr : ℕ) (items : Items) (c : Calc)
        → plain z ≡ entries items
        → Leads at ptr (entries items)
        → c.use_serialization ≡ false
        → Awaits at (suc (weight (entries items))) c.already_counted
        → (after : Option Bool × Calc → Bool × Calc)
        → calc_zval php serializer contains z c ≡ after (calc_early php serializer contains z ptr c)
        → ((c' : Calc) → after (some true, c') ≡ (true, c'))
        → ((after (none, noted ptr c)).0 ≡ true
            → Done (SealedItems items) (noted ptr c) (after (none, noted ptr c)).1)
        → (calc_zval php serializer contains z c).0 ≡ true
        → Done (Sealed (entries items)) c (calc_zval php serializer contains z c).1
    settle-Done z ptr items c same leads off waits after e settles goes ok =
        elim (looked z ptr c off) [
          | settled early why ↦
              subst (λ q. Done (Sealed (entries items)) c q.1)
                (sym (e ∙ ap after early ∙ settles c))
                (stay c off (
                  subst Sealed same (
                    settled-Sealed z ptr c (same ∙ leads)
                      (subst (λ p. Awaits at (suc (weight p)) c.already_counted) (sym same) waits)
                      why)))
          | going early ↦
              let is = e ∙ ap after early in
              subst (λ q. Done (Sealed (entries items)) c q.1) (sym is)
                (array-Done ptr items c _ leads (goes (sym (ap (λ q. q.0) is) ∙ ok)))
        ]

    -- objects, resources and references are not counted
    pub foreign-Done :
        (z : Zval) (ptr : ℕ) (c : Calc)
        → Leads at ptr (foreign ptr)
        → plain z ≡ foreign ptr
        → c.use_serialization ≡ false
        → Awaits at (suc (weight (foreign ptr))) c.already_counted
        → (after : Option Bool × Calc → Bool × Calc)
        → calc_zval php serializer contains z c ≡ after (calc_early php serializer contains z ptr c)
        → (after (none, noted ptr c)).0 ≡ false
        → (calc_zval php serializer contains z c).0 ≡ true
        → ⊥
    unfolding Sealed
    foreign-Done z ptr c leads same off waits after e unheard ok = elim (looked z ptr c off) [
      | settled early why ↦
          (subst Sealed same (
            settled-Sealed z ptr c (same ∙ leads)
              (subst (λ p. Awaits at (suc (weight p)) c.already_counted) (sym same) waits) why))
      | going early ↦ not_both (sym ok ∙ ap (λ r. r.0) (e ∙ ap after early) ∙ unheard)
    ]
