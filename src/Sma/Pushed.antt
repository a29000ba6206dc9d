-- ===== src/Sma/Pushed.antt =====
-- The end of `sma_deallocate`: the block, whose neighbours are in use, is put in front of the list.
use mathlib.Core.Path.{subst}
use immutable_cache_pecl.Prelude.{
  ℕ, ◌+◌, ◌≡◌, ◌≤◌, ◌<◌, ◌⊎◌, refl, ap, sym, ◌∙◌, true, false, List, [], ◌∷◌, ◌++◌, arith, ◌==◌,
  Bool-cases, ==_refl, inl, inr,
}
use immutable_cache_pecl.Sma.Words.{block_size}
use immutable_cache_pecl.Sma.Blocks.{Blocks, Segment, write, first, start, last_of}
use immutable_cache_pecl.Sma.Deallocate.{push_free}
use immutable_cache_pecl.Sma.Distinct.{has, apart, has-append, Distinct, Distinct-between}
use immutable_cache_pecl.Sma.Links.{Linked, Linked-frame, Linked-push}
use immutable_cache_pecl.Sma.Tiles.{
  Cell, cell, mark_of, end_of, end_of-le, frees, IsCell, Tiles, end_of-append, mark_of-append,
  free_count-append, free_total-append, has-frees-append, Tiles-split, Tiles-join, Tiles-frame,
}
use immutable_cache_pecl.Sma.Invariant.{IsSegment, frees_range, not-frees, front_free, Tiles-mark}
use immutable_cache_pecl.Sma.Held.{settle}

module _ (seg : Segment) (ls : List Cell) (h : ℕ) (rs : List Cell) (list : List ℕ) (v : ℕ)
    (inv : IsSegment
      (record seg { blocks = settle seg.blocks (end_of start ls) h })
      (ls ++ cell h false ∷ rs)
      list)
    (before : mark_of 0 ls ≡ 0) (behind : front_free rs ≡ false) (more : v ≡ seg.avail + h) where
  abbrev b : Blocks
  b = seg.blocks

  abbrev cur : ℕ
  cur = end_of start ls

  abbrev last : ℕ
  last = last_of seg.segsize

  -- the maps with the block in use
  abbrev ps : ℕ → ℕ
  ps = write b.prev_size (cur + h) 0

  abbrev fn : ℕ → ℕ
  fn = write b.fnext cur 0

  abbrev after : List Cell
  after = ls ++ cell h true ∷ rs

  pieces :
      Tiles b.size ps fn start 0 ls
      × IsCell b.size ps fn cur (mark_of 0 ls) (cell h false)
      × Tiles b.size ps fn (cur + h) 0 rs
  pieces =
      let (t, u) = Tiles-split b.size ps fn start 0 ls (cell h false ∷ rs) inv.tiles in
      (t, u.0, u.1)

  last_end : last ≡ end_of (cur + h) rs
  last_end = sym inv.ends ∙ end_of-append start ls (cell h false ∷ rs)

  range : (start ≤ cur) × (block_size ≤ h) × (cur + h ≤ last)
  range =
      let room = pieces.1.room in
      (end_of-le start ls, room, omega (arith, last_end, end_of-le (cur + h) rs))

  member_range : (a : ℕ) → has a list ≡ true → (start ≤ a) × (a < last)
  member_range a i =
      let (lo, hi) =
        frees_range b.size ps fn start 0 (ls ++ cell h false ∷ rs) a inv.tiles
          (sym (inv.members a) ∙ i) in
      (lo, rw (← inv.ends) hi)

  out_of_range : (a : ℕ) → (a < start) ⊎ (last ≤ a) → has a list ≡ false
  out_of_range a off = elim (Bool-cases (has a list)) [
    | inl there ↦ absurd (ground (arith, member_range a there))
    | inr out ↦ out
  ]

  cur_off_list : has cur list ≡ false
  cur_off_list =
      let (t, c, u) = pieces in
      let f = not-frees b.size ps fn start 0 ls cur t (inr (omega arith)) in
      let g = not-frees b.size ps fn (cur + h) 0 rs cur u (inl (omega (arith, range))) in
      inv.members cur ∙ rw (has-frees-append, f, g)

  ends-Distinct : Distinct (first ∷ (list ++ last ∷ []))
  ends-Distinct =
      Distinct-between first list last inv.distinct (out_of_range first (inl (omega arith)))
        (out_of_range last (inr (omega arith))) (ground (arith, range))

  abbrev prev_size' : ℕ → ℕ
  prev_size' = write b.prev_size (cur + h) h

  abbrev fnext' : ℕ → ℕ
  fnext' = write (write b.fnext cur (b.fnext first)) first cur

  abbrev fprev' : ℕ → ℕ
  fprev' = write (write b.fprev cur first) (b.fnext first) cur

  stays_zero : (a : ℕ) → (a == cur) ≡ false → start ≤ a → fn a ≡ 0 → fnext' a ≡ 0
  stays_zero a ne l z = ground arith

  pushed-Tiles : Tiles b.size prev_size' fnext' start 0 after × (prev_size' last ≡ mark_of 0 after)
  pushed-Tiles =
      let (t, c, u) = pieces in
      let (u', e) =
        Tiles-mark b.size ps fn b.size prev_size' fnext' (cur + h) 0 h rs
          (λ a l g. (
            refl,
            (λ n. ground (arith)),
            stays_zero a (ground (arith, range)) (omega (arith, range)),
          ))
          (rw (==_refl (cur + h))) (λ f. cc) u
          (ap ps (sym last_end) ∙ inv.tail_prev ∙ mark_of-append 0 ls (cell h false ∷ rs)) in
      (
        Tiles-join _ _ _ start 0 ls (cell h true ∷ rs)
            (Tiles-frame b.size ps fn _ _ _ start 0 ls
              (λ a l g. (refl, ground (arith, range), stays_zero a (ground (arith)) l)) t)
            (
              record {
                size = c.size;
                room = c.room;
                prev = ground (arith, c.prev);
                apart = λ f. before;
                used = λ f. cc;
              },
              u',
            ),
        ap prev_size' last_end ∙ e ∙ sym (mark_of-append 0 ls (cell h true ∷ rs)),
      )

  abbrev pushed : Segment
  pushed = record seg {
    avail = v;
    blocks = record { size = b.size; prev_size = prev_size'; fnext = fnext'; fprev = fprev' };
  }

  pushed-Linked : Linked fnext' fprev' first (cur ∷ list) last
  pushed-Linked =
      Linked-push b.fnext b.fprev first list last cur ends-Distinct
        (ground (arith, range, cur_off_list, has-append cur list (last ∷ [])))
        (Linked-frame fn b.fprev b.fnext b.fprev first list last
          (λ a i. rw (apart a cur (first ∷ list) i (ground (arith, cur_off_list, range))))
          (λ a i. refl) inv.linked)

  members_pushed : (a : ℕ) → has a (cur ∷ list) ≡ has a (frees start after)
  members_pushed a = ground (
    arith,
    inv.members a,
    has-frees-append a start ls (cell h true ∷ rs),
    has-frees-append a start ls (cell h false ∷ rs),
  )

  pushed-IsSegment : IsSegment pushed after (cur ∷ list)
  pushed-IsSegment = record {
    tiles = pushed-Tiles.0;
    ends = end_of-append start ls (cell h true ∷ rs) ∙ sym last_end;
    tail_size = inv.tail_size;
    tail_prev = pushed-Tiles.1;
    tail_next = stays_zero last (ground (arith, range)) (omega (arith, range)) inv.tail_next;
    linked = pushed-Linked;
    distinct = (cur_off_list, inv.distinct);
    members = members_pushed;
    count = omega (
      arith,
      inv.count,
      free_count-append ls (cell h true ∷ rs),
      free_count-append ls (cell h false ∷ rs),
    );
    avail = omega (
      arith,
      inv.avail,
      more,
      free_total-append ls (cell h true ∷ rs),
      free_total-append ls (cell h false ∷ rs),
    );
    small = inv.small;
  }

  pub push_free-IsSegment :
      IsSegment (record seg { avail = v; blocks = push_free b cur }) after (cur ∷ list)
  unfolding push_free
  push_free-IsSegment =
      let e : push_free b cur ≡ pushed.blocks =
        let size_cur : b.size cur ≡ h = pieces.1.size in
        let ne : (cur == first) ≡ false = ground (arith, range) in rw (size_cur, ne, ==_refl cur) in
      subst (λ g. IsSegment (record seg { avail = v; blocks = g }) after (cur ∷ list)) (sym e)
        pushed-IsSegment
