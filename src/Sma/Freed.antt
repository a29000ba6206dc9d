-- ===== src/Sma/Freed.antt =====
-- `sma_deallocate` keeps the invariant: the block is free, and one with its free neighbours.
use mathlib.Core.Path.{subst}
use immutable_cache_pecl.Prelude.{
  ℕ, ◌+◌, ◌≡◌, refl, ap, sym, ◌∙◌, true, false, List, ◌∷◌, ◌++◌, arith,
}
use immutable_cache_pecl.Sma.Words.{add64, sub64, block_size}
use immutable_cache_pecl.Sma.Blocks.{Blocks, Segment, start}
use immutable_cache_pecl.Sma.Deallocate.{join_prev, join_next, push_free, deallocate}
use immutable_cache_pecl.Sma.Tiles.{Cell, cell, end_of, end_of-le, end_of-append, Tiles-split}
use immutable_cache_pecl.Sma.Invariant.{IsSegment, free_total-le}
use immutable_cache_pecl.Sma.Pushed.{push_free-IsSegment}
use immutable_cache_pecl.Sma.Coalesce.{coalesce, coalesce_tidy, Tiles-IsTidy}
use immutable_cache_pecl.Sma.Way.{after_prev, after_next}

deallocate_steps :
    (seg : Segment) (offset : ℕ)
    → deallocate seg offset ≡ (
        let cur₀ = sub64 offset block_size in
        let step = join_prev seg.blocks cur₀ in
        let size = seg.blocks.size cur₀ in
        (
          size,
          record seg {
            avail = add64 seg.avail size;
            blocks = push_free (join_next step.1 step.0) step.0;
          },
        ))
unfolding deallocate
deallocate_steps seg offset = refl

deallocate_lem :
    (seg : Segment) (offset cur₀ cur s : ℕ) (b₁ b₂ : Blocks)
    → sub64 offset block_size ≡ cur₀
    → seg.blocks.size cur₀ ≡ s
    → join_prev seg.blocks cur₀ ≡ (cur, b₁)
    → join_next b₁ cur ≡ b₂
    → deallocate seg offset
      ≡ (s, record seg { avail = add64 seg.avail s; blocks = push_free b₂ cur })
deallocate_lem seg offset cur₀ cur s b₁ b₂ here size prev next =
    deallocate_steps seg offset ∙ rw (here, size, prev, next)

-- With the invariant, deallocating the payload of a block in use returns the size of that block,
-- and the invariant holds of the tiling in which it is free and is one with its free neighbours.
pub deallocate-IsSegment :
    (seg : Segment) (ls : List Cell) (s : ℕ) (rs : List Cell) (list : List ℕ)
    → IsSegment seg (ls ++ cell s false ∷ rs) list
    → (list' : List ℕ) × (seg' : Segment) × (deallocate seg (end_of start ls + block_size)
        ≡ (s, seg'))
      × IsSegment seg' (coalesce (ls ++ cell s true ∷ rs)) list'
deallocate-IsSegment seg ls s rs list inv =
    let b = seg.blocks in
    let cells = ls ++ cell s true ∷ rs in
    let (way, e) = after_prev seg s ls rs list inv in
    let (way', f, g, used) = after_next seg s cells way in
    let pushed =
      push_free-IsSegment (record seg { avail = way'.avail; blocks = way'.blocks }) way'.ls way'.h
        way'.rs way'.list (seg.avail + s) way'.inv way'.before used (sym way'.sum) in
    let tidy = coalesce_tidy 0 _ (Tiles-IsTidy _ _ _ start 0 _ pushed.tiles) in
    let (t, u) = Tiles-split b.size b.prev_size b.fnext start 0 ls (cell s false ∷ rs) inv.tiles in
    let room = u.0.room in
    let off : sub64 (end_of start ls + block_size) block_size ≡ end_of start ls = omega (
      arith,
      inv.small,
      inv.ends,
      end_of-append start ls (cell s false ∷ rs),
      end_of-le (end_of start ls + s) rs,
    ) in
    let sum : add64 seg.avail s ≡ seg.avail + s = omega (
      arith,
      pushed.avail,
      pushed.small,
      pushed.ends,
      free_total-le _ _ _ start 0 _ pushed.tiles,
    ) in
    let list' = end_of start way'.ls ∷ way'.list in
    let joint = way'.ls ++ cell way'.h true ∷ way'.rs in
    let b' = push_free way'.blocks (end_of start way.ls) in
    let inv₁ =
      subst
        (λ o.
          IsSegment (record seg { avail = seg.avail + s; blocks = push_free way'.blocks o }) joint
            list')
        (ap (λ l. end_of start l) f) pushed in
    let inv₂ =
      subst (λ a. IsSegment (record seg { avail = a; blocks = b' }) joint list') (sym sum) inv₁ in
    (
      list',
      record seg { avail = add64 seg.avail s; blocks = b' },
      deallocate_lem seg (end_of start ls + block_size) (end_of start ls) (end_of start way.ls) s
          way.blocks way'.blocks off u.0.size e g,
      subst (λ c. IsSegment (record seg { avail = add64 seg.avail s; blocks = b' }) c list')
          (sym tidy ∙ sym way'.same) inv₂,
    )
