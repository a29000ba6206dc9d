-- ===== src/Sma/JoinPrev.antt =====
-- `sma_deallocate` with a free block in front: it leaves the free list and the two blocks are one.
use immutable_cache_pecl.Prelude.{
  ℕ, ◌+◌, ◌≡◌, ◌<◌, ◌≤◌, refl, ap, ◌∙◌, true, false, List, [], ◌∷◌, ◌++◌, arith, ◌==◌, ==_symm, inl,
  ◌-◌, ◌≢◌, ◌^◌,
}
use immutable_cache_pecl.Sma.Words.{add64, sub64, block_size}
use immutable_cache_pecl.Sma.Blocks.{Blocks, Segment, write, first, start, last_of}
use immutable_cache_pecl.Sma.Deallocate.{join_prev}
use immutable_cache_pecl.Sma.Distinct.{has, apart, has-append, Distinct-append}
use immutable_cache_pecl.Sma.Links.{Linked-split, front_has}
use immutable_cache_pecl.Sma.Tiles.{Cell, cell, end_of, end_of-le}
use immutable_cache_pecl.Sma.Invariant.{IsSegment}
use immutable_cache_pecl.Sma.Taken
use immutable_cache_pecl.Sma.Held.{
  settle, write_back, with_maps-IsSegment, behind-Tiles, merged-IsSegment,
}

-- `o`, which lies between `q` and `n` on the list, leaves it.
abbrev pub joined : Blocks → ℕ → ℕ → ℕ → Blocks
joined b o at h = record b {
  size = write b.size at h;
  fnext = write b.fnext (b.fprev o) (b.fnext o);
  fprev = write b.fprev (b.fnext o) (b.fprev o);
}

-- what follows a free block on the list
module _ (seg : Segment) (ls : List Cell) (s : ℕ) (rs : List Cell) (front back : List ℕ)
    (inv : IsSegment seg (ls ++ cell s true ∷ rs) (front ++ end_of start ls ∷ back)) where
  pub ahead_facts :
      ((end_of start ls == seg.blocks.fnext (end_of start ls)) ≡ false)
      × (seg.blocks.fnext (end_of start ls) ≢ 0)
  ahead_facts =
      let b = seg.blocks in
      let cur = end_of start ls in
      let last = last_of seg.segsize in
      let (l₁, l₂) = Linked-split b.fnext b.fprev first front cur back last inv.linked in
      let there = front_has b.fnext b.fprev cur back last l₂ in
      let (d₁, d₂, sep) =
        Distinct-append (first ∷ front) (cur ∷ (back ++ last ∷ []))
          (Taken.all-Distinct seg ls s rs front back inv) in
      (
        rw (==_symm cur (b.fnext cur)) (apart (b.fnext cur) cur (back ++ last ∷ []) there d₂.0),
        λ z. ground (
          arith,
          z,
          ap (λ o. has o (back ++ last ∷ [])) z,
          has-append 0 back (last ∷ []),
          has-append 0 front (cur ∷ back),
          Taken.out_of_range seg ls s rs front back inv 0 (inl (omega arith)),
          Taken.cur_range seg ls s rs front back inv,
        ),
      )

-- The previous block, of size `p`, is free.
module _ (seg : Segment) (ls : List Cell) (p s : ℕ) (rs : List Cell) (front back : List ℕ)
    (inv : IsSegment seg
      (ls ++ cell p true ∷ cell s false ∷ rs)
      (front ++ end_of start ls ∷ back)) where
  abbrev b : Blocks
  b = seg.blocks

  abbrev prv : ℕ
  prv = end_of start ls

  abbrev cur : ℕ
  cur = prv + p

  abbrev b₁ : Blocks
  b₁ = joined b prv prv (p + s)

  marks : (b.prev_size cur ≡ p) × (b.prev_size (prv + (p + s)) ≡ 0)
  marks =
      let (t, c, u) = Taken.split-Tiles seg ls p (cell s false ∷ rs) front back inv in
      (
        u.0.prev,
        ap b.prev_size (omega arith)
            ∙ behind-Tiles b.size b.prev_size b.fnext cur p (cell s false) rs u
                (Taken.tail_mark seg ls p (cell s false ∷ rs) front back inv),
      )

  bounds : (block_size ≤ p) × (p + s < 2 ^ 63) × (b.size prv ≡ p) × (b.size cur ≡ s)
  bounds =
      let (t, c, u) = Taken.split-Tiles seg ls p (cell s false ∷ rs) front back inv in
      let room = u.0.room in
      (
        c.room,
        omega (
          arith,
          inv.small,
          Taken.last_end seg ls p (cell s false ∷ rs) front back inv,
          end_of-le (cur + s) rs,
          Taken.cur_range seg ls p (cell s false ∷ rs) front back inv,
        ),
        c.size,
        u.0.size,
      )

  pub join_prev_lem : join_prev b cur ≡ (prv, b₁)
  unfolding join_prev
  join_prev_lem =
      let back_at : cur - b.prev_size cur ≡ prv = omega (arith, marks) in
      let whole : add64 p s ≡ p + s = omega (arith, bounds) in
      let there : (b.prev_size cur == 0) ≡ false = ground (arith, marks, bounds) in
      rw (
        there,
        back_at,
        (ahead_facts seg ls p (cell s false ∷ rs) front back inv).0,
        bounds.2,
        bounds.3,
        whole,
      )

  pub prev-IsSegment :
      IsSegment
        (record seg { avail = sub64 seg.avail p; blocks = settle b₁ prv (p + s) })
        (ls ++ cell (p + s) false ∷ rs)
        (front ++ back)
  prev-IsSegment =
      let taken = Taken.taken seg ls p (cell s false ∷ rs) front back inv in
      let settled = settle b₁ prv (p + s) in
      let v = settled.prev_size cur in
      let w = settled.fnext cur in
      with_maps-IsSegment (record seg { avail = sub64 seg.avail p; blocks = settled })
        (ls ++ cell (p + s) false ∷ rs) (front ++ back)
        (write_back (write b.prev_size cur 0) settled.prev_size cur
          (λ a ne. ground (arith, marks, ap b.prev_size {x = a} {y = prv + (p + s)})))
        (write_back settled.fnext settled.fnext cur (λ a ne. refl)) refl
        (merged-IsSegment taken ls p s rs (front ++ back) v w
          (Taken.taken-IsSegment seg ls p (cell s false ∷ rs) front back inv))
