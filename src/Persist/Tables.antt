-- ===== src/Persist/Tables.antt =====
-- The two tables of pointers, side by side: `already_counted` and `already_allocated`.
use immutable_cache_pecl.Prelude.{
  ℕ, ◌≡◌, refl, ap, ◌∙◌, Bool, true, false, List, ◌∷◌, Option, none, some, arith, ◌==◌, Bool-cases,
  Option-cases, inl, inr, ==_refl, ==_iff,
}
use immutable_cache_pecl.Persist.Value.{Zval}
use immutable_cache_pecl.Persist.Memo.{counted, lookup, note_made}

abbrev pub found : Option Zval → Bool
found none = false
found (some z) = true

pub not_both : ¬ (true ≡ false)
not_both e = ground arith

-- the two tables have the same keys
abbrev pub Same : Option (List ℕ) → Option (List (ℕ × Zval)) → Type 0
Same none none = Unit {0}
Same (some seen) (some made) = (k : ℕ) → counted k seen ≡ found (lookup k made)
Same _ _ = ⊥

abbrev pub seen : ℕ → Option (List ℕ) → Bool
seen k none = true
seen k (some xs) = counted k xs

abbrev pub note : ℕ → Option (List ℕ) → Option (List ℕ)
note k none = none
note k (some xs) = some (k ∷ xs)

pub Same-note :
    (k : ℕ) (z : Zval) (o : Option (List ℕ)) (m : Option (List (ℕ × Zval)))
    → Same o m
    → Same (note k o) (note_made k z m)
Same-note k z none none same = tt
Same-note k z none (some ys) same = same
Same-note k z (some xs) none same = same
Same-note k z (some xs) (some ys) same = λ j. ground (arith, same j)

-- a key that is there already
pub Same-make :
    (k : ℕ) (z : Zval) (o : Option (List ℕ)) (m : Option (List (ℕ × Zval)))
    → Same o m
    → seen k o ≡ true
    → Same o (note_made k z m)
Same-make k z none none same there = tt
Same-make k z none (some ys) same there = same
Same-make k z (some xs) none same there = same
Same-make k z (some xs) (some ys) same there = λ j. elim (Bool-cases (j == k)) [
  | inl it ↦ rw (it, (==_iff j k).0 it) there
  | inr other ↦ rw other (same j)
]

pub seen-note : (j k : ℕ) (o : Option (List ℕ)) → seen j o ≡ true → seen j (note k o) ≡ true
seen-note j k none s = refl
seen-note j k (some xs) s = ground arith

pub seen-note_self : (k : ℕ) (o : Option (List ℕ)) → seen k (note k o) ≡ true
seen-note_self k none = refl
seen-note_self k (some xs) = rw (==_refl k)

-- what the two tables say of a key
pub data Known (k : ℕ) (o : Option (List ℕ)) (m : Option (List (ℕ × Zval))) : Type 0 where
  untold : o ≡ none → m ≡ none → Known k o m
  told :
      (xs : List ℕ) (ys : List (ℕ × Zval)) (z : Zval)
      → o ≡ some xs
      → m ≡ some ys
      → counted k xs ≡ true
      → lookup k ys ≡ some z
      → Known k o m
  missing :
      (xs : List ℕ) (ys : List (ℕ × Zval))
      → o ≡ some xs
      → m ≡ some ys
      → counted k xs ≡ false
      → lookup k ys ≡ none
      → Known k o m

pub known : (k : ℕ) (o : Option (List ℕ)) (m : Option (List (ℕ × Zval))) → Same o m → Known k o m
known k none none same = untold refl refl
known k none (some ys) same = absurd same
known k (some xs) none same = absurd same
known k (some xs) (some ys) same = elim (Option-cases (lookup k ys)) [
  | inl off ↦ missing xs ys refl refl (same k ∙ ap found off) off
  | inr (z, there) ↦ told xs ys z refl refl (same k ∙ ap found there) there
]
