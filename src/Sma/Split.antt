-- ===== src/Sma/Split.antt =====
-- `sma_allocate` keeps the invariant when it splits a block.
use mathlib.Core.Path.{subst}
use immutable_cache_pecl.Prelude.{
  ℕ, ◌+◌, ◌-◌, ◌≤◌, ◌≡◌, ◌≢◌, refl, ap, sym, ◌∙◌, true, false, List, [], ◌∷◌, ◌++◌, arith,
  length-append, ◌==◌, Bool-cases, ==_iff, ==_refl, ==_symm, inl, inr,
}
use immutable_cache_pecl.Sma.Words.{sub64, block_size}
use immutable_cache_pecl.Sma.Blocks.{Blocks, Segment, write, first, start, last_of}
use immutable_cache_pecl.Sma.Allocate.{split_block, finish}
use immutable_cache_pecl.Sma.Distinct.{has, has-append, has-append_false, apart, Distinct-replace}
use immutable_cache_pecl.Sma.Links.{Linked-split, Linked-frame, front_has, Linked-replace}
use immutable_cache_pecl.Sma.Tiles.{
  Cell, cell, mark_of, end_of, frees, Tiles, end_of-append, mark_of-append, free_count-append,
  free_total-append, has-frees-append, Tiles-join, Tiles-frame,
}
use immutable_cache_pecl.Sma.Invariant.{IsSegment, not-frees, free_total-le, Tiles-remark}
use immutable_cache_pecl.Sma.Taken

module _ (seg : Segment) (ls : List Cell) (s : ℕ) (rs : List Cell) (front back : List ℕ)
    (inv : IsSegment seg (ls ++ cell s true ∷ rs) (front ++ end_of start ls ∷ back)) (r : ℕ)
    (wide : block_size ≤ r) (left : r + block_size ≤ s) where
  abbrev b : Blocks
  b = seg.blocks

  abbrev cur : ℕ
  cur = end_of start ls

  abbrev last : ℕ
  last = last_of seg.segsize

  abbrev prv : ℕ
  prv = b.fprev cur

  abbrev nxt : ℕ
  nxt = b.fnext cur

  -- the offset of the new block, and its size
  abbrev new : ℕ
  new = cur + r

  abbrev rest : ℕ
  rest = s - r

  abbrev after : List Cell
  after = ls ++ cell r false ∷ cell rest true ∷ rs

  new_end : new + rest ≡ cur + s
  new_end = omega arith

  cur_range : (start ≤ cur) × (cur + s ≤ last) × (block_size ≤ s)
  cur_range = Taken.cur_range seg ls s rs front back inv

  new_not_free : has new (frees start (ls ++ cell s true ∷ rs)) ≡ false
  new_not_free =
      let (t, c, u) = Taken.split-Tiles seg ls s rs front back inv in
      let f = not-frees b.size b.prev_size b.fnext start 0 ls new t (inr (omega arith)) in
      let g = not-frees b.size b.prev_size b.fnext (cur + s) s rs new u (inl (omega arith)) in
      ground (arith, has-frees-append new start ls (cell s true ∷ rs), f, g)

  new_off_list : has new (front ++ cur ∷ back) ≡ false
  new_off_list = inv.members new ∙ new_not_free

  new_is_new : has new ((first ∷ front) ++ (cur ∷ (back ++ last ∷ []))) ≡ false
  new_is_new =
      let off = has-append_false new front (cur ∷ back) new_off_list in
      ground (
        arith,
        cur_range,
        off,
        has-append new front (cur ∷ (back ++ last ∷ [])),
        has-append new back (last ∷ []),
      )

  new_ne_nxt : (new == nxt) ≡ false
  new_ne_nxt =
      let (l₁, l₂) = Linked-split b.fnext b.fprev first front cur back last inv.linked in
      let ahead = front_has b.fnext b.fprev cur back last l₂ in
      let off = has-append_false new (first ∷ front) (cur ∷ (back ++ last ∷ [])) new_is_new in
      rw (==_symm new nxt) (apart nxt new (back ++ last ∷ []) ahead (ground arith))

  abbrev size' : ℕ → ℕ
  size' = write (write b.size cur r) new rest

  abbrev prev_size' : ℕ → ℕ
  prev_size' = write (write b.prev_size new 0) (cur + s) rest

  abbrev fnext' : ℕ → ℕ
  fnext' = write (write (write b.fnext new nxt) prv new) cur 0

  abbrev fprev' : ℕ → ℕ
  fprev' = write (write b.fprev new prv) nxt new

  stays_zero : (a : ℕ) → a ≢ new → b.fnext a ≡ 0 → fnext' a ≡ 0
  stays_zero a ne z = elim (Bool-cases (a == prv)) [
    | inl same ↦ absurd (
        omega (
          arith,
          Taken.prv_facts seg ls s rs front back inv,
          cur_range,
          ap b.fnext ((==_iff a prv).0 same),
        ))
    | inr other ↦ ground arith
  ]

  cur_not_free : has cur (frees start after) ≡ false
  cur_not_free =
      let (t, c, u) = Taken.split-Tiles seg ls s rs front back inv in
      let f = not-frees b.size b.prev_size b.fnext start 0 ls cur t (inr (omega arith)) in
      let g = not-frees b.size b.prev_size b.fnext (cur + s) s rs cur u (inl (omega arith)) in
      ground (
        arith,
        has-frees-append cur start ls (cell r false ∷ cell rest true ∷ rs),
        f,
        g,
        ap (λ o. has cur (frees o rs)) new_end,
      )

  cur_off_list : has cur (front ++ new ∷ back) ≡ false
  cur_off_list = ground (
    arith,
    Taken.cur_off_list seg ls s rs front back inv,
    has-append cur front back,
    has-append cur front (new ∷ back),
  )

  members_split : (a : ℕ) → has a (front ++ new ∷ back) ≡ has a (frees start after)
  members_split a = elim (Bool-cases (a == cur)) [
    | inl same ↦
        let e : a ≡ cur = (==_iff a cur).0 same in
        subst (λ x. has x (front ++ new ∷ back) ≡ has x (frees start after)) (sym e)
          (cur_off_list ∙ sym cur_not_free)
    | inr other ↦ ground (
      arith,
      inv.members a,
      has-append a front (cur ∷ back),
      has-append a front (new ∷ back),
      has-frees-append a start ls (cell s true ∷ rs),
      has-frees-append a start ls (cell r false ∷ cell rest true ∷ rs),
      ap (λ o. has a (frees o rs)) new_end,
    )
  ]

  rest-Tiles :
      Tiles size' prev_size' fnext' (cur + s) rest rs
      × (prev_size' (end_of (cur + s) rs) ≡ mark_of rest rs)
  rest-Tiles =
      Tiles-remark b.size b.prev_size b.fnext size' prev_size' fnext' (cur + s) s rest rs
        (λ a l h. (ground arith, (λ n. ground arith), stays_zero a (omega arith)))
        (rw (==_refl (cur + s))) (λ z. omega arith) (Taken.split-Tiles seg ls s rs front back inv).2
        (Taken.tail_mark seg ls s rs front back inv)

  split-Tiles : Tiles size' prev_size' fnext' start 0 after × (prev_size' last ≡ mark_of 0 after)
  split-Tiles =
      let (t, c, u) = Taken.split-Tiles seg ls s rs front back inv in
      let (u', e) = rest-Tiles in
      (
        Tiles-join _ _ _ start 0 ls (cell r false ∷ cell rest true ∷ rs)
            (Tiles-frame b.size b.prev_size b.fnext _ _ _ start 0 ls
              (λ a l h. (ground arith, ground arith, stays_zero a (omega arith))) t)
            (
              record {
                size = ground arith;
                room = wide;
                prev = ground (arith, c.prev);
                apart = λ f. cc;
                used = λ f. rw (==_refl cur);
              },
              (
                record {
                  size = rw (==_refl new);
                  room = omega arith;
                  prev = ground arith;
                  apart = λ f. refl;
                  used = λ f. cc;
                },
                subst (λ o. Tiles size' prev_size' fnext' o rest rs) (sym new_end) u',
              ),
            ),
        ap prev_size' (Taken.last_end seg ls s rs front back inv)
            ∙ e
            ∙ sym (mark_of-append 0 ls (cell r false ∷ cell rest true ∷ rs)),
      )

  abbrev split : Segment
  split = record seg {
    avail = sub64 seg.avail r;
    blocks = record { size = size'; prev_size = prev_size'; fnext = fnext'; fprev = fprev' };
  }

  new_apart : (cur == new) ≡ false
  new_apart = ground arith

  rest_size : sub64 s r ≡ rest
  rest_size = omega (arith, inv.small, cur_range, wide)

  new_off_rest : has new (front ++ back) ≡ false
  new_off_rest =
      ground (arith, new_off_list, has-append new front (cur ∷ back), has-append new front back)

  split-IsSegment : IsSegment split after (front ++ new ∷ back)
  split-IsSegment = record {
    tiles = split-Tiles.0;
    ends =
        end_of-append start ls (cell r false ∷ cell rest true ∷ rs)
        ∙ ap (λ o. end_of o rs) new_end
        ∙ sym (end_of-append start ls (cell s true ∷ rs))
        ∙ inv.ends;
    tail_size = ground (arith, cur_range, inv.tail_size);
    tail_prev = split-Tiles.1;
    tail_next = stays_zero last (omega (arith, cur_range)) inv.tail_next;
    linked =
        Linked-frame (write (write b.fnext new nxt) prv new) fprev' _ _ first (front ++ new ∷ back)
          last
          (λ a i. rw (
            apart a cur (first ∷ (front ++ new ∷ back)) i
              (ground (arith, cur_off_list, cur_range))))
          (λ a i. refl)
          (Linked-replace b.fnext b.fprev first front last cur new back
            (Taken.all-Distinct seg ls s rs front back inv) new_is_new inv.linked);
    distinct = Distinct-replace front cur new back inv.distinct new_off_rest;
    members = members_split;
    count = omega (
      arith,
      inv.count,
      length-append front (cur ∷ back),
      length-append front (new ∷ back),
      free_count-append ls (cell s true ∷ rs),
      free_count-append ls (cell r false ∷ cell rest true ∷ rs),
    );
    avail = omega (
      arith,
      inv.avail,
      inv.small,
      inv.ends,
      free_total-le b.size b.prev_size b.fnext start 0 _ inv.tiles,
      free_total-append ls (cell s true ∷ rs),
      free_total-append ls (cell r false ∷ cell rest true ∷ rs),
    );
    small = inv.small;
  }

  pub split_block-IsSegment :
      IsSegment (finish seg (split_block b cur r) cur) after (front ++ new ∷ back)
  unfolding split_block
  split_block-IsSegment =
      let e : finish seg (split_block b cur r) cur ≡ split = rw (
        Taken.size_cur seg ls s rs front back inv,
        ==_refl cur,
        ==_refl new,
        new_apart,
        new_ne_nxt,
        rest_size,
        new_end,
      ) in
      subst (λ g. IsSegment g after (front ++ new ∷ back)) (sym e) split-IsSegment
