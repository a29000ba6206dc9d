-- ===== src/Sma/Reuse.antt =====
-- `sma_allocate` and then `sma_deallocate` of what it returned.
use mathlib.Core.Path.{subst}
use immutable_cache_pecl.Prelude.{
  ℕ, ◌+◌, ◌-◌, ◌≡◌, ◌≤◌, ◌<◌, ◌^◌, ap, sym, ◌∙◌, true, false, List, ◌∷◌, ◌++◌, arith, Option, some,
  length,
}
use immutable_cache_pecl.Sma.Words.{block_size}
use immutable_cache_pecl.Sma.Blocks.{Segment, start}
use immutable_cache_pecl.Sma.Allocate.{allocate, real_size}
use immutable_cache_pecl.Sma.Deallocate.{deallocate}
use immutable_cache_pecl.Sma.Tiles.{Cell, cell, end_of}
use immutable_cache_pecl.Sma.Invariant.{IsSegment}
use immutable_cache_pecl.Sma.Outcome.{Outcome, refused, whole, split, allocate-Outcome}
use immutable_cache_pecl.Sma.Coalesce.{coalesce, coalesce_pair, coalesce_tidy, Tiles-IsTidy}
use immutable_cache_pecl.Sma.Freed.{deallocate-IsSegment}

-- `seg'` is as good as `seg`: the same blocks are free, and the header counts the same.
pub record IsRestored (seg seg' : Segment) (cells : List Cell) : Type 0 where
  pub list : List ℕ
  pub inv : IsSegment seg' cells list
  pub avail : seg'.avail ≡ seg.avail

abbrev pub returned : ℕ → ℕ → Segment → Option (Option (ℕ × ℕ) × Segment)
returned offset allocated seg = some (some (offset, allocated), seg)

-- what freeing the payload does
abbrev pub IsUndone : Segment → List Cell → Segment → ℕ → ℕ → Type 0
IsUndone seg cells seg' offset allocated =
    ((deallocate seg' offset).0 ≡ allocated + block_size)
    × IsRestored seg (deallocate seg' offset).1 cells

module _ (seg seg' : Segment) (offset allocated : ℕ) (cells : List Cell) (list : List ℕ)
    (inv : IsSegment seg cells list) where
  -- a block that was in use for a part of a free one, or for all of it
  restored :
      (seg₁ : Segment) (ls : List Cell) (s : ℕ) (rs : List Cell) (list₁ : List ℕ)
      → IsSegment seg₁ (ls ++ cell s false ∷ rs) list₁
      → coalesce (ls ++ cell s true ∷ rs) ≡ cells
      → block_size ≤ s
      → returned (end_of start ls + block_size) (s - block_size) seg₁
        ≡ returned offset allocated seg'
      → IsUndone seg cells seg' offset allocated
  restored seg₁ ls s rs list₁ inv₁ same room e =
      let (list', seg₂, freed, inv') = deallocate-IsSegment seg₁ ls s rs list₁ inv₁ in
      let inv₂ = subst (λ c. IsSegment seg₂ c list') same inv' in
      let there : end_of start ls + block_size ≡ offset = cc in
      let size : s - block_size ≡ allocated = cc in
      let after : seg₁ ≡ seg' = cc in
      let freed' : deallocate seg' offset ≡ (s, seg₂) = rw (← after, ← there) freed in
      (
        ap (λ r. r.0) freed' ∙ omega (arith, size),
        subst (λ r. IsRestored seg r.1 cells) (sym freed')
            (record { list = list'; inv = inv₂; avail = inv₂.avail ∙ sym inv.avail }),
      )

  undone :
      (n : ℕ) (result : Option (Option (ℕ × ℕ) × Segment))
      → Outcome seg n cells list result
      → result ≡ returned offset allocated seg'
      → IsUndone seg cells seg' offset allocated
  undone n result (refused e each) r = cc
  undone n result (whole at seg₁ room e inv₁) r =
      let tidy = coalesce_tidy 0 cells (Tiles-IsTidy _ _ _ start 0 cells inv.tiles) in
      restored seg₁ at.left at.size at.right (at.front ++ at.back) inv₁
        (ap coalesce (sym at.cells_eq) ∙ tidy) (omega arith) (sym e ∙ r)
  undone n result (split at seg₁ wide room e inv₁) r =
      let tidy = coalesce_tidy 0 cells (Tiles-IsTidy _ _ _ start 0 cells inv.tiles) in
      let rest = at.size - real_size n in
      let sum : real_size n + rest ≡ at.size = omega arith in
      restored seg₁ at.left (real_size n) (cell rest true ∷ at.right) _ inv₁
        (coalesce_pair at.left (real_size n) rest at.right
          ∙ ap (λ s. coalesce (at.left ++ cell s true ∷ at.right)) sum
          ∙ ap coalesce (sym at.cells_eq)
          ∙ tidy)
        (omega arith) (sym e ∙ r)

-- With the invariant, a size below 2^63, a fragment below 2^62 and fuel of two more than the
-- length of the free list: if an allocation returns a payload, then deallocating it returns the
-- size of the payload and its header, and leaves a segment that satisfies the invariant with the
-- same cells as before the allocation, and whose header counts as much free memory as before.
pub deallocate-allocate :
    (fuel : ℕ) (seg seg' : Segment) (n fragment offset allocated : ℕ) (cells : List Cell)
    (list : List ℕ)
    → IsSegment seg cells list
    → n < 2 ^ 63
    → fragment < 2 ^ 62
    → length list + 2 ≤ fuel
    → allocate fuel seg n fragment ≡ returned offset allocated seg'
    → IsUndone seg cells seg' offset allocated
deallocate-allocate fuel seg seg' n fragment offset allocated cells list inv small few enough e =
    undone seg seg' offset allocated cells list inv n (allocate fuel seg n fragment)
      (allocate-Outcome fuel seg n fragment cells list inv small few enough) e
