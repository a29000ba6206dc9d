-- ===== src/Persist/Sealed.antt =====
-- Values without objects, resources and references, and the table of pointers of a calculation that
-- counts only such values.
use immutable_cache_pecl.Prelude.{
  ℕ, suc, ◌+◌, ◌≤◌, ◌≡◌, ◌⊎◌, refl, ap, sym, ◌∙◌, Bool, true, false, List, Option, none, some,
  arith, ◌==◌, ==_iff, Bool-cases, inl, inr,
}
use mathlib.Core.Path.{subst}
use immutable_cache_pecl.Persist.Value.{
  Zval, packed, hashed, object, resource, reference, Elems, no_elem, elem, Buckets, no_bucket,
  keyed, indexed, indirect, Plain, nothing, number, text, entries, foreign, Items, no_item,
  text_key, int_key,
}
use immutable_cache_pecl.Persist.Memo.{pointer_to_hash_key, counted}
use immutable_cache_pecl.Persist.Tables.{note}
use immutable_cache_pecl.Persist.Contents.{Leads}

unfoldable mutual
  -- at any depth, neither an object nor a resource nor a reference
  pub Sealed : Plain → Type 0
  Sealed nothing = Unit {0}
  Sealed (number n) = Unit {0}
  Sealed (text val) = Unit {0}
  Sealed (entries items) = SealedItems items
  Sealed (foreign ptr) = ⊥

  pub SealedItems : Items → Type 0
  SealedItems no_item = Unit {0}
  SealedItems (text_key key p items) = Sealed p × SealedItems items
  SealedItems (int_key i p items) = Sealed p × SealedItems items

unfoldable mutual
  pub weight : Plain → ℕ
  weight nothing = 1
  weight (number n) = 1
  weight (text val) = 1
  weight (entries items) = suc (weight_items items)
  weight (foreign ptr) = 1

  pub weight_items : Items → ℕ
  weight_items no_item = 0
  weight_items (text_key key p items) = weight p + weight_items items
  weight_items (int_key i p items) = weight p + weight_items items

-- whether a key is in the table
abbrev pub met_in : ℕ → Option (List ℕ) → Bool
met_in k none = false
met_in k (some xs) = counted k xs

pub met_in-note :
    (k j : ℕ) (o : Option (List ℕ)) → met_in k (note j o) ≡ true → (k ≡ j) ⊎ (met_in k o ≡ true)
met_in-note k j none met = inr met
met_in-note k j (some xs) met = elim (Bool-cases (k == j)) [
  | inl it ↦ inl ((==_iff k j).0 it)
  | inr other ↦ inr (sym (rw other refl) ∙ met)
]

module _ (at : ℕ → Plain) where
  -- Every object, resource and reference is alone at its address.
  unfoldable mutual
    pub Alone : Zval → Type 0
    Alone (packed ptr head zs) = AloneElems zs
    Alone (hashed ptr head bs) = AloneBuckets bs
    Alone (object ptr) = Leads at ptr (foreign ptr)
    Alone (resource ptr) = Leads at ptr (foreign ptr)
    Alone (reference ptr) = Leads at ptr (foreign ptr)
    Alone _ = Unit {0}

    pub AloneElems : Elems → Type 0
    AloneElems no_elem = Unit {0}
    AloneElems (elem z zs) = Alone z × AloneElems zs

    pub AloneBuckets : Buckets → Type 0
    AloneBuckets no_bucket = Unit {0}
    AloneBuckets (keyed k z bs) = Alone z × AloneBuckets bs
    AloneBuckets (indexed h z bs) = Alone z × AloneBuckets bs
    AloneBuckets (indirect bs) = AloneBuckets bs

  -- What was met is sealed, or is being counted: then it is of at least that weight.
  abbrev pub Awaits : ℕ → Option (List ℕ) → Type 0
  Awaits n o = (k : ℕ) → met_in k o ≡ true → Sealed (at k) ⊎ (n ≤ weight (at k))

  -- what is new is sealed
  abbrev pub Grows : Option (List ℕ) → Option (List ℕ) → Type 0
  Grows o o' = (k : ℕ) → met_in k o' ≡ true → (met_in k o ≡ true) ⊎ Sealed (at k)

  pub Grows-trans : (o o' o'' : Option (List ℕ)) → Grows o o' → Grows o' o'' → Grows o o''
  Grows-trans o o' o'' g h k met = elim (h k met) [ inl before ↦ g k before | inr done ↦ inr done ]

  pub Awaits-Grows : (n : ℕ) (o o' : Option (List ℕ)) → Awaits n o → Grows o o' → Awaits n o'
  Awaits-Grows n o o' a g k met = elim (g k met) [ inl before ↦ a k before | inr done ↦ inl done ]

  pub Awaits-le : (n m : ℕ) (o : Option (List ℕ)) → n ≤ m → Awaits m o → Awaits n o
  Awaits-le n m o le a k met = elim (a k met) [
    | inl done ↦ inl done
    | inr heavy ↦ inr (omega (arith, le, heavy))
  ]

  -- a value is met at an address
  pub Awaits-note :
      (n ptr : ℕ) (p : Plain) (o : Option (List ℕ))
      → Leads at ptr p
      → n ≤ weight p
      → Awaits n o
      → Awaits n (note (pointer_to_hash_key ptr) o)
  Awaits-note n ptr p o leads le a k met = elim (met_in-note k (pointer_to_hash_key ptr) o met) [
    | inl it ↦ inr (subst (λ q. n ≤ weight q) (leads ∙ ap at (sym it)) le)
    | inr before ↦ a k before
  ]

  pub Grows-note :
      (ptr : ℕ) (p : Plain) (o : Option (List ℕ))
      → Leads at ptr p
      → Sealed p
      → Grows o (note (pointer_to_hash_key ptr) o)
  Grows-note ptr p o leads done k met = elim (met_in-note k (pointer_to_hash_key ptr) o met) [
    | inl it ↦ inr (subst Sealed (leads ∙ ap at (sym it)) done)
    | inr before ↦ inl before
  ]
