-- ===== src/Sma/JoinNext.antt =====
-- `sma_deallocate` with a free block behind: it leaves the free list and the two blocks are one.
use mathlib.Core.Path.{subst}
use mathlib.Core.List.{append_assoc}
use immutable_cache_pecl.Prelude.{
  ℕ, ◌+◌, ◌≡◌, ◌<◌, ◌≤◌, ap, true, false, List, [], ◌∷◌, ◌++◌, arith, ◌==◌, ◌≢◌, ◌^◌,
}
use immutable_cache_pecl.Sma.Words.{add64, sub64, block_size}
use immutable_cache_pecl.Sma.Blocks.{Blocks, Segment, write, first, start}
use immutable_cache_pecl.Sma.Deallocate.{join_next}
use immutable_cache_pecl.Sma.Distinct.{has}
use immutable_cache_pecl.Sma.Tiles.{
  Cell, cell, end_of, end_of-le, end_of-le, end_of-append, Tiles-split,
}
use immutable_cache_pecl.Sma.Invariant.{IsSegment}
use immutable_cache_pecl.Sma.Taken
use immutable_cache_pecl.Sma.Held.{settle, write_back, with_maps-IsSegment, merged-IsSegment}
use immutable_cache_pecl.Sma.JoinPrev.{joined, ahead_facts}

-- the block taken out of its place at `o`
taken_at-IsSegment :
    (seg : Segment) (ls : List Cell) (s : ℕ) (rs : List Cell) (front back : List ℕ) (o : ℕ)
    → end_of start ls ≡ o
    → IsSegment seg (ls ++ cell s true ∷ rs) (front ++ end_of start ls ∷ back)
    → IsSegment
        (record seg {
          avail = sub64 seg.avail s;
          blocks = record seg.blocks {
            prev_size = write seg.blocks.prev_size (o + s) 0;
            fnext = write (write seg.blocks.fnext (seg.blocks.fprev o) (seg.blocks.fnext o)) o 0;
            fprev = write seg.blocks.fprev (seg.blocks.fnext o) (seg.blocks.fprev o);
          };
        })
        (ls ++ cell s false ∷ rs)
        (front ++ back)
taken_at-IsSegment seg ls s rs front back o at inv =
    subst
      (λ o.
        IsSegment
          (record seg {
            avail = sub64 seg.avail s;
            blocks = record seg.blocks {
              prev_size = write seg.blocks.prev_size (o + s) 0;
              fnext = write (write seg.blocks.fnext (seg.blocks.fprev o) (seg.blocks.fnext o)) o 0;
              fprev = write seg.blocks.fprev (seg.blocks.fnext o) (seg.blocks.fprev o);
            };
          })
          (ls ++ cell s false ∷ rs) (front ++ back))
      at (Taken.taken-IsSegment seg ls s rs front back inv)

-- The next block, of size `q`, is free.
module _ (seg : Segment) (ls : List Cell) (h q : ℕ) (rs : List Cell) (front back : List ℕ)
    (inv : IsSegment
      (record seg { blocks = settle seg.blocks (end_of start ls) h })
      (ls ++ cell h false ∷ cell q true ∷ rs)
      (front ++ (end_of start ls + h) ∷ back)) where
  abbrev b : Blocks
  b = seg.blocks

  abbrev cur : ℕ
  cur = end_of start ls

  abbrev nxt : ℕ
  nxt = cur + h

  abbrev b₁ : Blocks
  b₁ = joined b nxt cur (h + q)

  at : end_of start (ls ++ cell h false ∷ []) ≡ nxt
  at = end_of-append start ls (cell h false ∷ [])

  inv' :
      IsSegment
        (record seg { blocks = settle b cur h })
        ((ls ++ cell h false ∷ []) ++ cell q true ∷ rs)
        (front ++ end_of start (ls ++ cell h false ∷ []) ∷ back)
  inv' = rw (append_assoc, at) inv

  abbrev fnext' : ℕ → ℕ
  fnext' = write b.fnext cur 0

  sizes :
      (block_size ≤ h)
      × (block_size ≤ q)
      × (start ≤ cur)
      × (h + q < 2 ^ 63)
      × (b.size cur ≡ h)
      × (b.size nxt ≡ q)
  sizes =
      let (t, u) =
        Tiles-split b.size (write b.prev_size nxt 0) fnext' start 0 ls
          (cell h false ∷ cell q true ∷ rs) inv.tiles in
      let end = end_of-append start ls (cell h false ∷ cell q true ∷ rs) in
      (
        u.0.room,
        u.1.0.room,
        end_of-le start ls,
        omega (arith, inv.small, inv.ends, end, end_of-le start ls, end_of-le (nxt + q) rs),
        u.0.size,
        u.1.0.size,
      )

  -- where the links of the next block lead
  next_facts :
      (fnext' nxt ≡ b.fnext nxt)
      × ((nxt == b.fnext nxt) ≡ false)
      × (b.fnext nxt ≢ 0)
      × (fnext' (b.fprev nxt) ≡ nxt)
      × ((nxt == b.fprev nxt) ≡ false)
  next_facts =
      let S : Segment = record seg { blocks = settle b cur h } in
      let stays : fnext' nxt ≡ b.fnext nxt = ground (arith, sizes) in
      let (ne, pos) =
        subst (λ o. ((o == fnext' o) ≡ false) × (fnext' o ≢ 0)) at
          (ahead_facts S (ls ++ cell h false ∷ []) q rs front back inv') in
      let back_facts =
        subst
          (λ o.
            (fnext' (b.fprev o) ≡ o)
            × (has (b.fprev o) (first ∷ front) ≡ true)
            × ((o == b.fprev o) ≡ false))
          at (Taken.prv_facts S (ls ++ cell h false ∷ []) q rs front back inv') in
      (stays, rw (← stays) ne, rw (← stays) pos, back_facts.0, back_facts.2)

  pub join_next_lem : join_next b cur ≡ b₁
  unfolding join_next
  join_next_lem =
      let whole : add64 h q ≡ h + q = omega (arith, sizes) in
      let there : (b.fnext nxt == 0) ≡ false = ground (arith, next_facts) in
      rw (sizes.4, there, next_facts.1, sizes.5, whole)

  pub next-IsSegment :
      IsSegment
        (record seg { avail = sub64 seg.avail q; blocks = settle b₁ cur (h + q) })
        (ls ++ cell (h + q) false ∷ rs)
        (front ++ back)
  next-IsSegment =
      let settled = settle b₁ cur (h + q) in
      let S : Segment = record seg { blocks = settle b cur h } in
      let taken : Segment = record seg {
        avail = sub64 seg.avail q;
        blocks = record b {
          prev_size = write (write b.prev_size nxt 0) (nxt + q) 0;
          fnext = write (write fnext' (b.fprev nxt) (fnext' nxt)) nxt 0;
          fprev = write b.fprev (fnext' nxt) (b.fprev nxt);
        };
      } in
      let inv₁ = taken_at-IsSegment S (ls ++ cell h false ∷ []) q rs front back nxt at inv' in
      with_maps-IsSegment (record seg { avail = sub64 seg.avail q; blocks = settled })
        (ls ++ cell (h + q) false ∷ rs) (front ++ back)
        (write_back (write (write b.prev_size nxt 0) (nxt + q) 0) settled.prev_size nxt
          (λ a ne. ground (arith)))
        (write_back (write (write fnext' (b.fprev nxt) (fnext' nxt)) nxt 0) settled.fnext nxt
          (λ a ne. ground (arith, next_facts, sizes)))
        (ap (λ n. write b.fprev n (b.fprev nxt)) next_facts.0)
        (merged-IsSegment taken ls h q rs (front ++ back) (settled.prev_size nxt)
          (settled.fnext nxt) (rw append_assoc at inv₁))
