-- ===== src/Sma/Taken.antt =====
-- `sma_allocate` keeps the invariant when it takes a block as a whole.
use mathlib.Core.Path.{subst}
use mathlib.Core.List.{append_assoc}
use immutable_cache_pecl.Prelude.{
  ℕ, ◌+◌, ◌≤◌, ◌<◌, ◌≡◌, refl, ap, sym, ◌∙◌, ◌⊎◌, true, false, List, [], ◌∷◌, ◌++◌, arith,
  length-append, ◌==◌, Bool-cases, ==_iff, ==_refl, ==_symm, inl, inr,
}
use immutable_cache_pecl.Sma.Words.{sub64, block_size}
use immutable_cache_pecl.Sma.Blocks.{Blocks, Segment, write, first, start, last_of}
use immutable_cache_pecl.Sma.Allocate.{take_whole, finish}
use immutable_cache_pecl.Sma.Distinct.{
  has, Distinct, has-append, apart, separate, Distinct-append, Distinct-between, Distinct-remove,
}
use immutable_cache_pecl.Sma.Links.{back_has, next-back, Linked-split, Linked-frame, Linked-remove}
use immutable_cache_pecl.Sma.Tiles.{
  Cell, cell, mark_of, end_of, end_of-le, frees, IsCell, Tiles, end_of-append, mark_of-append,
  free_count-append, free_total-append, has-frees-append, Tiles-split, Tiles-join, Tiles-frame,
}
use immutable_cache_pecl.Sma.Invariant.{
  IsSegment, frees_range, not-frees, free_total-le, Tiles-remark,
}

-- What the taken block's neighbourhood looks like.
module _ (seg : Segment) (ls : List Cell) (s : ℕ) (rs : List Cell) (front back : List ℕ)
    (inv : IsSegment seg (ls ++ cell s true ∷ rs) (front ++ end_of start ls ∷ back)) where
  abbrev pub b : Blocks
  b = seg.blocks

  abbrev pub cur : ℕ
  cur = end_of start ls

  abbrev pub last : ℕ
  last = last_of seg.segsize

  pub split-Tiles :
      Tiles b.size b.prev_size b.fnext start 0 ls
      × IsCell b.size b.prev_size b.fnext cur (mark_of 0 ls) (cell s true)
      × Tiles b.size b.prev_size b.fnext (cur + s) s rs
  split-Tiles =
      let (t, u) = Tiles-split b.size b.prev_size b.fnext start 0 ls (cell s true ∷ rs) inv.tiles in
      (t, u.0, u.1)

  pub last_end : last ≡ end_of (cur + s) rs
  last_end = sym inv.ends ∙ end_of-append start ls (cell s true ∷ rs)

  -- a member of the free list lies between the sentinels
  pub member_range : (a : ℕ) → has a (front ++ cur ∷ back) ≡ true → (start ≤ a) × (a < last)
  member_range a i =
      let (lo, hi) =
        frees_range b.size b.prev_size b.fnext start 0 (ls ++ cell s true ∷ rs) a inv.tiles
          (sym (inv.members a) ∙ i) in
      (lo, rw (← inv.ends) hi)

  pub out_of_range : (a : ℕ) → (a < start) ⊎ (last ≤ a) → has a (front ++ cur ∷ back) ≡ false
  out_of_range a off = elim (Bool-cases (has a (front ++ cur ∷ back))) [
    | inl there ↦ absurd (ground (arith, member_range a there))
    | inr out ↦ out
  ]

  pub cur_range : (start ≤ cur) × (cur + s ≤ last) × (block_size ≤ s)
  cur_range =
      let room = split-Tiles.1.room in
      (end_of-le start ls, omega (arith, last_end, end_of-le (cur + s) rs), room)

  pub all-Distinct : Distinct ((first ∷ front) ++ (cur ∷ (back ++ last ∷ [])))
  all-Distinct =
      let (lo, hi, room) = cur_range in
      subst (λ l. Distinct (first ∷ l)) (append_assoc front (cur ∷ back) (last ∷ []))
        (Distinct-between first (front ++ cur ∷ back) last inv.distinct
          (out_of_range first (inl (omega arith))) (out_of_range last (inr (omega arith)))
          (ground arith))

  -- where the links of the block lead
  abbrev pub prv : ℕ
  prv = b.fprev cur

  abbrev pub nxt : ℕ
  nxt = b.fnext cur

  pub size_cur : b.size cur ≡ s
  size_cur = split-Tiles.1.size

  pub prv_facts : (b.fnext prv ≡ cur) × (has prv (first ∷ front) ≡ true) × ((cur == prv) ≡ false)
  prv_facts =
      let (l₁, l₂) = Linked-split b.fnext b.fprev first front cur back last inv.linked in
      let (d₁, d₂, sep) =
        Distinct-append (first ∷ front) (cur ∷ (back ++ last ∷ [])) all-Distinct in
      let there = back_has b.fnext b.fprev first front cur l₁ in
      (
        next-back b.fnext b.fprev first front cur l₁,
        there,
        ground (arith, sep prv there, ==_symm cur prv),
      )

  pub cur_off_list : has cur (front ++ back) ≡ false
  cur_off_list =
      let (d₁, d₂, sep) = Distinct-append front (cur ∷ back) inv.distinct in
      let off = separate front (cur ∷ back) sep cur (rw (==_refl cur)) in rw (has-append, off, d₂.0)

  pub cur_not_free : has cur (frees start (ls ++ cell s false ∷ rs)) ≡ false
  cur_not_free =
      let (t, c, u) = split-Tiles in
      let (lo, hi, room) = cur_range in
      rw (
        has-frees-append,
        not-frees b.size b.prev_size b.fnext start 0 ls cur t (inr (omega arith)),
        not-frees b.size b.prev_size b.fnext (cur + s) s rs cur u (inl (omega arith)),
      )

  -- the block in use is off the list, and all else on it stays
  pub members_taken :
      (a : ℕ) → has a (front ++ back) ≡ has a (frees start (ls ++ cell s false ∷ rs))
  members_taken a = elim (Bool-cases (a == cur)) [
    | inl same ↦
        let e : a ≡ cur = (==_iff a cur).0 same in
        subst (λ x. has x (front ++ back) ≡ has x (frees start (ls ++ cell s false ∷ rs))) (sym e)
          (cur_off_list ∙ sym cur_not_free)
    | inr other ↦ ground (
      arith,
      inv.members a,
      has-append a front (cur ∷ back),
      has-append a front back,
      has-frees-append a start ls (cell s true ∷ rs),
      has-frees-append a start ls (cell s false ∷ rs),
    )
  ]

  pub tail_mark : b.prev_size (end_of (cur + s) rs) ≡ mark_of s rs
  tail_mark = ap b.prev_size (sym last_end) ∙ inv.tail_prev ∙ mark_of-append 0 ls (cell s true ∷ rs)

  -- the block in front of the taken one is linked to it, so it is not one in use
  pub stays_zero : (a : ℕ) → b.fnext a ≡ 0 → write (write b.fnext prv nxt) cur 0 a ≡ 0
  stays_zero a z = elim (Bool-cases (a == prv)) [
    | inl same ↦ absurd (omega (arith, prv_facts, cur_range, ap b.fnext ((==_iff a prv).0 same)))
    | inr other ↦ ground arith
  ]

  take-Tiles :
      Tiles b.size
        (write b.prev_size (cur + s) 0)
        (write (write b.fnext prv nxt) cur 0)
        start
        0
        (ls ++ cell s false ∷ rs)
      × (write b.prev_size (cur + s) 0 last ≡ mark_of 0 (ls ++ cell s false ∷ rs))
  take-Tiles =
      let (t, c, u) = split-Tiles in
      let (lo, hi, room) = cur_range in
      let (to_cur, there, ne) = prv_facts in
      let (u', e) =
        Tiles-remark b.size b.prev_size b.fnext b.size (write b.prev_size (cur + s) 0)
          (write (write b.fnext prv nxt) cur 0) (cur + s) s 0 rs
          (λ a l h. (refl, (λ n. ground arith), stays_zero a)) (rw (==_refl (cur + s))) (λ z. refl)
          u tail_mark in
      (
        Tiles-join _ _ _ start 0 ls (cell s false ∷ rs)
            (Tiles-frame b.size b.prev_size b.fnext _ _ _ start 0 ls
              (λ a l h. (refl, ground arith, stays_zero a)) t)
            (
              record {
                size = c.size;
                room = c.room;
                prev = ground arith;
                apart = λ f. cc;
                used = λ f. rw (==_refl cur);
              },
              u',
            ),
        ap (write b.prev_size (cur + s) 0) last_end
            ∙ e
            ∙ sym (mark_of-append 0 ls (cell s false ∷ rs)),
      )

  abbrev pub taken : Segment
  taken = record seg {
    avail = sub64 seg.avail s;
    blocks = record {
      size = b.size;
      prev_size = write b.prev_size (cur + s) 0;
      fnext = write (write b.fnext prv nxt) cur 0;
      fprev = write b.fprev nxt prv;
    };
  }

  pub taken-IsSegment : IsSegment taken (ls ++ cell s false ∷ rs) (front ++ back)
  taken-IsSegment = record {
    tiles = take-Tiles.0;
    ends =
        end_of-append start ls (cell s false ∷ rs)
        ∙ sym (end_of-append start ls (cell s true ∷ rs))
        ∙ inv.ends;
    tail_size = inv.tail_size;
    tail_prev = take-Tiles.1;
    tail_next = stays_zero last inv.tail_next;
    linked =
        Linked-frame (write b.fnext prv nxt) (write b.fprev nxt prv) _ _ first (front ++ back) last
          (λ a i.
            rw (apart a cur (first ∷ (front ++ back)) i (ground (arith, cur_off_list, cur_range))))
          (λ a i. refl)
          (Linked-remove b.fnext b.fprev first front last cur back all-Distinct inv.linked);
    distinct = Distinct-remove front cur back inv.distinct;
    members = members_taken;
    count = omega (
      arith,
      inv.count,
      length-append front back,
      length-append front (cur ∷ back),
      free_count-append ls (cell s true ∷ rs),
      free_count-append ls (cell s false ∷ rs),
    );
    avail = omega (
      arith,
      inv.avail,
      inv.small,
      inv.ends,
      free_total-le b.size b.prev_size b.fnext start 0 _ inv.tiles,
      free_total-append ls (cell s true ∷ rs),
      free_total-append ls (cell s false ∷ rs),
    );
    small = inv.small;
  }

  pub take_whole-IsSegment :
      IsSegment (finish seg (take_whole b cur) cur) (ls ++ cell s false ∷ rs) (front ++ back)
  unfolding take_whole
  take_whole-IsSegment =
      let (to_cur, there, ne) = prv_facts in
      let e : finish seg (take_whole b cur) cur ≡ taken = rw (size_cur, ne) in
      subst (λ g. IsSegment g (ls ++ cell s false ∷ rs) (front ++ back)) (sym e) taken-IsSegment
