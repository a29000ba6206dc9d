-- ===== src/Sma/Find.antt =====
-- `find_block`: what the two loops over the free list find.
use mathlib.Core.Path.{subst}
use immutable_cache_pecl.Prelude.{
  ℕ, zero, suc, ◌+◌, ◌≤◌, ◌<◌, ◌≡◌, ◌≢◌, refl, ap, sym, ◌∙◌, ◌⊎◌, true, false, ◌&&◌, List, [], ◌∷◌,
  arith, length, Option, some, ltb, leb, ◌==◌, Bool-cases, ==_iff, ==_refl, inl, inr,
}
use immutable_cache_pecl.Sma.Blocks.{Blocks, Segment, first, start, last_of}
use immutable_cache_pecl.Sma.Search.{first_fit, better_fit, find_block, best_fit_limit}
use immutable_cache_pecl.Sma.Distinct.{has, part, has-append}
use immutable_cache_pecl.Sma.Links.{Linked, Linked-split}
use immutable_cache_pecl.Sma.Tiles.{Cell, end_of-le}
use immutable_cache_pecl.Sma.Invariant.{IsSegment, frees_range}

module _ (b : Blocks) (r : ℕ) where
  -- The first block that fits, if there is one.
  abbrev pub First : List ℕ → Option ℕ → Type 0
  First xs found =
      ((found ≡ some 0) × ((a : ℕ) → has a xs ≡ true → b.size a < r))
      ⊎ ((a : ℕ) × (found ≡ some a) × (has a xs ≡ true) × (r ≤ b.size a))

  -- a block of the list that fits
  abbrev pub Fits : List ℕ → ℕ → Type 0
  Fits list a = (has a list ≡ true) × (r ≤ b.size a)

module _ (b : Blocks) (r q : ℕ) where
  -- the end of the list: a sentinel that fits nothing
  abbrev pub IsEnd : Type 0
  IsEnd = (q ≢ 0) × (b.fnext q ≡ 0) × (b.size q < r)

  end_tests : IsEnd → ((q == 0) ≡ false) × (leb r (b.size q) ≡ false)
  end_tests end = (ground (arith, end.0), ground (arith, end.2))

  stops : (fuel : ℕ) → IsEnd → 1 ≤ fuel → first_fit fuel b r q ≡ some 0
  unfolding first_fit
  stops zero end more = absurd (omega (arith, more))
  stops (suc fuel) end more = rw end.1

  each_of :
      (x : ℕ) (xs : List ℕ)
      → b.size x < r
      → ((a : ℕ) → has a xs ≡ true → b.size a < r)
      → (a : ℕ) → has a (x ∷ xs) ≡ true
      → b.size a < r
  each_of x xs small each a i = elim (Bool-cases (a == x)) [
    | inl same ↦ rw ((==_iff a x).0 same) small
    | inr other ↦ each a (ground arith)
  ]

  pub first_fit-First :
      (fuel p : ℕ) (xs : List ℕ)
      → IsEnd
      → ((a : ℕ) → has a xs ≡ true → a ≢ 0)
      → Linked b.fnext b.fprev p xs q
      → length xs + 2 ≤ fuel
      → First b r xs (first_fit fuel b r p)
  unfolding first_fit
  first_fit-First zero p xs end pos l enough = absurd (omega (arith, enough))
  first_fit-First (suc fuel) p [] end pos l enough = inl (
    rw (l.0, (end_tests end).0, (end_tests end).1) (stops fuel end (omega (arith, enough))),
    λ a i. cc,
  )
  first_fit-First (suc fuel) p (x ∷ xs) end pos l enough =
      let nonzero : (x == 0) ≡ false = ground (arith, pos x (rw (==_refl x))) in
      elim (Bool-cases (leb r (b.size x))) [
        | inl fits ↦ inr (x, rw (l.0, nonzero, fits), rw (==_refl x), ground arith)
        | inr small ↦
            elim (first_fit-First fuel x xs end (λ a i. pos a (ground arith)) l.2 (omega arith)) [
              | inl (none_fits, each) ↦
                  inl (rw (l.0, nonzero, small) none_fits, each_of x xs (ground arith) each)
              | inr (a, e, i, f) ↦ inr (a, rw (l.0, nonzero, small) e, ground arith, f)
            ]
      ]

  at_end : (i found : ℕ) → IsEnd → better_fit i b r q found ≡ found
  unfolding better_fit
  at_end zero found end = refl
  at_end (suc i) found end = rw end.1

  -- More blocks only make the choice better.
  pub better_fit-Fits :
      (i p : ℕ) (xs list : List ℕ) (found : ℕ)
      → IsEnd
      → ((a : ℕ) → has a xs ≡ true → a ≢ 0)
      → Linked b.fnext b.fprev p xs q
      → ((a : ℕ) → has a xs ≡ true → has a list ≡ true)
      → Fits b r list found
      → Fits b r list (better_fit i b r p found)
        × (b.size (better_fit i b r p found) ≤ b.size found)
  unfolding better_fit
  better_fit-Fits zero p xs list found end pos l among f = (f, omega arith)
  better_fit-Fits (suc i) p [] list found end pos l among f =
      let (nonzero, small) = end_tests end in
      let e : better_fit (suc i) b r p found ≡ found =
        rw (l.0, nonzero, small) (at_end i found end) in
      rw e (f, omega arith)
  better_fit-Fits (suc i) p (x ∷ xs) list found end pos l among f =
      let nonzero : (x == 0) ≡ false = ground (arith, pos x (rw (==_refl x))) in
      let next : (n : ℕ)
          → Fits b r list n
          → Fits b r list (better_fit i b r x n) × (b.size (better_fit i b r x n) ≤ b.size n) =
        λ n.
          better_fit-Fits i x xs list n end (λ a j. pos a (ground arith)) l.2
            (λ a j. among a (ground arith)) in
      elim (Bool-cases (leb r (b.size x) && ltb (b.size x) (b.size found))) [
        | inl better ↦
            let e : better_fit (suc i) b r p found ≡ better_fit i b r x x =
              rw (l.0, nonzero, better) in
            let (fits, less) = next x (among x (rw (==_refl x)), ground arith) in
            rw e (fits, ground arith)
        | inr worse ↦
            let e : better_fit (suc i) b r p found ≡ better_fit i b r x found =
              rw (l.0, nonzero, worse) in
            rw e (next found f)
      ]

-- With the invariant, a positive size and fuel of two more than the length of the free list, the
-- search returns 0 if every free block is smaller than the size, and otherwise a block of the
-- free list that is at least as large.
pub find_block-First :
    (seg : Segment) (cells : List Cell) (list : List ℕ) (r fuel : ℕ)
    → IsSegment seg cells list
    → 0 < r
    → length list + 2 ≤ fuel
    → First seg.blocks r list (find_block fuel seg.blocks r)
unfolding find_block
find_block-First seg cells list r fuel inv pos enough =
    let b = seg.blocks in
    let last = last_of seg.segsize in
    let end : IsEnd b r last = (
      omega (arith, inv.ends, end_of-le start cells),
      inv.tail_next,
      ground (arith, inv.tail_size),
    ) in
    let nonzero : (a : ℕ) → has a list ≡ true → a ≢ 0 = λ a i. omega (
      arith,
      frees_range b.size b.prev_size b.fnext start 0 cells a inv.tiles (sym (inv.members a) ∙ i),
    ) in
    elim (first_fit-First b r last fuel first list end nonzero inv.linked enough) [
      | inl (e, each) ↦ inl (rw (find_block, e), each)
      | inr (a, e, i, fits) ↦
          let away : (a == 0) ≡ false = ground (arith, nonzero a i) in
          let (front, back, split) = part a list i in
          let (l₁, l₂) =
            Linked-split b.fnext b.fprev first front a back last
              (subst (λ l. Linked b.fnext b.fprev first l last) split inv.linked) in
          let among : (x : ℕ) → has x back ≡ true → has x list ≡ true =
            λ x j. ap (has x) split ∙ has-append x front (a ∷ back) ∙ ground arith in
          let (f, less) =
            better_fit-Fits b r last best_fit_limit a back list a end (λ x j. nonzero x (among x j))
              l₂ among (i, fits) in
          inr (better_fit best_fit_limit b r a a, rw (find_block, e, away), f.0, f.1)
    ]
