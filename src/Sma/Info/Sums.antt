-- ===== src/Sma/Info/Sums.antt =====
-- The blocks that `immutable_cache_sma_info` lists add up to what the header counts.
use mathlib.Core.Path.{subst}
use immutable_cache_pecl.Prelude.{
  ℕ, ◌+◌, ◌*◌, ◌%◌, ◌^◌, ◌≡◌, refl, ap, sym, ◌∙◌, false, List, [], ◌∷◌, ◌++◌, arith, length, ◌==◌,
  Bool-cases, ==_iff, ==_refl, inl, inr, if◌then◌else◌,
}
use immutable_cache_pecl.Sma.Words.{block_size}
use immutable_cache_pecl.Sma.Blocks.{Blocks, Segment, start}
use immutable_cache_pecl.Sma.Distinct.{
  has, Distinct, has-append, separate, Distinct-append, Distinct-remove, part,
}
use immutable_cache_pecl.Sma.Tiles.{Cell, mark, frees, free_total, Tiles}
use immutable_cache_pecl.Sma.Invariant.{not-frees}
use immutable_cache_pecl.Sma.Heap.{get_avail_mem}
use immutable_cache_pecl.Sma.Info.{Link}
use immutable_cache_pecl.Sma.Info.Lists.{describe, Tells, AllTell}

abbrev sum_of : (ℕ → ℕ) → List ℕ → ℕ
sum_of f [] = 0
sum_of f (x ∷ xs) = f x + sum_of f xs

sum_of-append : (f : ℕ → ℕ) (xs ys : List ℕ) → sum_of f (xs ++ ys) ≡ sum_of f xs + sum_of f ys
sum_of-append f [] ys = omega arith
sum_of-append f (x ∷ xs) ys = omega (arith, sum_of-append f xs ys)

-- a member leaves a list without repetition
has-remove :
    (a x : ℕ) (front back : List ℕ)
    → Distinct (front ++ x ∷ back)
    → has a (front ++ back) ≡ (if a == x then false else has a (front ++ x ∷ back))
has-remove a x front back d =
    let (d₁, d₂, sep) = Distinct-append front (x ∷ back) d in
    let off = separate front (x ∷ back) sep x (rw (==_refl x)) in
    elim (Bool-cases (a == x)) [
      | inl same ↦ ground (
        arith,
        has-append a front back,
        ap (λ (n : ℕ). has n front) ((==_iff a x).0 same),
        ap (λ (n : ℕ). has n back) ((==_iff a x).0 same),
        d₂.0,
      )
      | inr other ↦ ground (arith, has-append a front back, has-append a front (x ∷ back))
    ]

-- lists without repetition and with the same members have the same sum
sum_of-members :
    (f : ℕ → ℕ) (xs ys : List ℕ)
    → Distinct xs
    → Distinct ys
    → ((a : ℕ) → has a xs ≡ has a ys)
    → sum_of f xs ≡ sum_of f ys
sum_of-members f [] [] dx dy same = refl
sum_of-members f [] (y ∷ ys) dx dy same = ground (arith, same y, ==_refl y)
sum_of-members f (x ∷ xs) ys dx dy same =
    let (front, back, e) = part x ys (sym (same x) ∙ rw (==_refl x)) in
    let dy' = subst Distinct e dy in
    let same' = λ (a : ℕ). same a ∙ ap (has a) e in
    let rest = sum_of-members f xs (front ++ back) dx.1 (Distinct-remove front x back dy') (λ a.
      ground (
        arith,
        same' a,
        has-remove a x front back dy',
        dx.0,
        ap (λ (n : ℕ). has n xs) {x = a} {y = x},
      )) in
    omega
      (arith, rest, ap (sum_of f) e, sum_of-append f front back, sum_of-append f front (x ∷ back))

module _ (sz ps fn : ℕ → ℕ) where
  frees-Distinct : (o m : ℕ) (cs : List Cell) → Tiles sz ps fn o m cs → Distinct (frees o cs)
  frees-Distinct o m [] t = tt
  frees-Distinct o m (c ∷ cs) t =
      let room = t.0.room in
      let rest = frees-Distinct (o + c.size) (mark c) cs t.1 in
      elim (Bool-cases c.free) [
        | inl free ↦
            rw free (not-frees sz ps fn (o + c.size) (mark c) cs o t.1 (inl (omega arith)), rest)
        | inr used ↦ rw used rest
      ]

  sum_of-frees :
      (o m : ℕ) (cs : List Cell) → Tiles sz ps fn o m cs → sum_of sz (frees o cs) ≡ free_total cs
  sum_of-frees o m [] t = refl
  sum_of-frees o m (c ∷ cs) t = ground (arith, sum_of-frees (o + c.size) (mark c) cs t.1, t.0.size)

abbrev pub link_total : List Link → ℕ
link_total [] = 0
link_total (l ∷ ls) = l.size + link_total ls

abbrev pub lists_total : List (List Link) → ℕ
lists_total [] = 0
lists_total (ls ∷ lss) = link_total ls + lists_total lss

link_total-describe : (b : Blocks) (os : List ℕ) → link_total (describe b os) ≡ sum_of b.size os
link_total-describe b [] = refl
link_total-describe b (o ∷ os) = omega (arith, link_total-describe b os)

avail-link_total :
    (seg : Segment) (ls : List Link) → Tells seg ls → seg.avail ≡ link_total ls + block_size
avail-link_total seg ls told =
    let b = seg.blocks in
    let inv = told.inv in
    omega (
      arith,
      inv.avail,
      ap link_total told.told,
      link_total-describe b told.list,
      sum_of-members b.size told.list (frees start told.cells) inv.distinct
          (frees-Distinct b.size b.prev_size b.fnext start 0 told.cells inv.tiles) inv.members,
      sum_of-frees b.size b.prev_size b.fnext start 0 told.cells inv.tiles,
    )

pub get_avail_mem-lists_total :
    (ss : List Segment) (lss : List (List Link))
    → AllTell ss lss
    → get_avail_mem ss ≡ (lists_total lss + block_size * length ss) % 2 ^ 64
unfolding get_avail_mem
get_avail_mem-lists_total [] [] all = refl
get_avail_mem-lists_total [] (l ∷ ls) all = absurd all
get_avail_mem-lists_total (s ∷ ss) [] all = absurd all
get_avail_mem-lists_total (s ∷ ss) (l ∷ ls) all =
    omega (arith, avail-link_total s l all.0, get_avail_mem-lists_total ss ls all.1)
