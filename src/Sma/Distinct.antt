-- ===== src/Sma/Distinct.antt =====
-- Lists without repetition, as which the free list is seen.
use immutable_cache_pecl.Prelude.{
  ℕ, ◌≡◌, refl, ap, sym, Bool, true, false, ◌||◌, List, [], ◌∷◌, ◌++◌, arith, ◌==◌, Bool-cases,
  ==_iff, ==_symm, inl, inr,
}

abbrev pub has : ℕ → List ℕ → Bool
has a [] = false
has a (x ∷ xs) = (a == x) || has a xs

abbrev pub Distinct : List ℕ → Type 0
Distinct [] = Unit {0}
Distinct (x ∷ xs) = (has x xs ≡ false) × Distinct xs

pub has-append : (a : ℕ) (xs ys : List ℕ) → has a (xs ++ ys) ≡ (has a xs || has a ys)
has-append a [] ys = refl
has-append a (x ∷ xs) ys = ground (arith, has-append a xs ys)

pub has-append_false :
    (a : ℕ) (xs ys : List ℕ) → has a (xs ++ ys) ≡ false → (has a xs ≡ false) × (has a ys ≡ false)
has-append_false a xs ys h = ground (arith, has-append a xs ys)

-- a member is not what is no member
pub apart : (a o : ℕ) (xs : List ℕ) → has a xs ≡ true → has o xs ≡ false → (a == o) ≡ false
apart a o xs i out = elim (Bool-cases (a == o)) [
  | inl same ↦ cc (ap (λ n. has n xs) ((==_iff a o).0 same))
  | inr other ↦ other
]

pub separate :
    (xs ys : List ℕ)
    → ((a : ℕ) → has a xs ≡ true → has a ys ≡ false)
    → (a : ℕ) → has a ys ≡ true
    → has a xs ≡ false
separate xs ys sep a i = elim (Bool-cases (has a xs)) [
  | inl there ↦ cc (sep a there)
  | inr out ↦ out
]

pub Distinct-append :
    (xs ys : List ℕ)
    → Distinct (xs ++ ys)
    → Distinct xs × Distinct ys × ((a : ℕ) → has a xs ≡ true → has a ys ≡ false)
Distinct-append [] ys d = (tt, d, λ a i. cc)
Distinct-append (x ∷ xs) ys d =
    let (dx, dy, sep) = Distinct-append xs ys d.1 in
    (
      (ground (arith, has-append x xs ys), dx),
      dy,
      λ a i. elim (Bool-cases (a == x)) [
        | inl same ↦
            let e : a ≡ x = (==_iff a x).0 same in rw e (ground (arith, has-append x xs ys))
        | inr other ↦ sep a (ground arith)
      ],
    )

Distinct-snoc : (xs : List ℕ) (q : ℕ) → Distinct xs → has q xs ≡ false → Distinct (xs ++ q ∷ [])
Distinct-snoc [] q d out = (refl, tt)
Distinct-snoc (x ∷ xs) q d out =
    (ground (arith, has-append x xs (q ∷ []), ==_symm x q), Distinct-snoc xs q d.1 (ground arith))

-- a list between two ends that are not in it
pub Distinct-between :
    (p : ℕ) (xs : List ℕ) (q : ℕ)
    → Distinct xs
    → has p xs ≡ false
    → has q xs ≡ false
    → (p == q) ≡ false
    → Distinct (p ∷ (xs ++ q ∷ []))
Distinct-between p xs q d outp outq ne =
    (ground (arith, has-append p xs (q ∷ [])), Distinct-snoc xs q d outq)

-- a member splits the list
pub part :
    (a : ℕ) (xs : List ℕ)
    → has a xs ≡ true
    → (front : List ℕ) × (back : List ℕ) × (xs ≡ front ++ a ∷ back)
part a [] i = cc
part a (x ∷ xs) i = elim (Bool-cases (a == x)) [
  | inl here ↦ ([], xs, ap (λ y. y ∷ xs) (sym ((==_iff a x).0 here)))
  | inr there ↦
      let (front, back, e) = part a xs (ground arith) in (x ∷ front, back, ap (λ ys. x ∷ ys) e)
]

pub Distinct-remove :
    (front : List ℕ) (x : ℕ) (back : List ℕ)
    → Distinct (front ++ x ∷ back)
    → Distinct (front ++ back)
Distinct-remove [] x back d = d.1
Distinct-remove (f ∷ front) x back d = (
  ground (arith, has-append f front (x ∷ back), has-append f front back),
  Distinct-remove front x back d.1,
)

pub Distinct-replace :
    (front : List ℕ) (x y : ℕ) (back : List ℕ)
    → Distinct (front ++ x ∷ back)
    → has y (front ++ back) ≡ false
    → Distinct (front ++ y ∷ back)
Distinct-replace [] x y back d out = (out, d.1)
Distinct-replace (f ∷ front) x y back d out = (
  ground (arith, has-append f front (x ∷ back), has-append f front (y ∷ back), ==_symm f y),
  Distinct-replace front x y back d.1 (ground arith),
)
