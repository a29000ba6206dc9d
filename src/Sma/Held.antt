-- ===== src/Sma/Held.antt =====
-- A block in use, seen from a `sma_deallocate` on its way: two such blocks side by side are one, and
-- the fields that the code leaves behind inside of it do not matter.
use mathlib.Core.Path.{subst, fun_ext}
use immutable_cache_pecl.Prelude.{
  ℕ, ◌+◌, ◌≡◌, ◌≤◌, refl, ap, sym, ◌∙◌, false, List, [], ◌∷◌, ◌++◌, arith, ◌==◌, ==_refl, ==_iff,
  Bool-cases, inl, inr,
}
use immutable_cache_pecl.Sma.Words.{block_size}
use immutable_cache_pecl.Sma.Blocks.{Blocks, Segment, write, first, start, last_of}
use immutable_cache_pecl.Sma.Distinct.{has, apart}
use immutable_cache_pecl.Sma.Links.{Linked-frame}
use immutable_cache_pecl.Sma.Tiles.{
  Cell, cell, mark, mark_of, end_of, end_of-le, frees, IsCell, Tiles, end_of-append, mark_of-append,
  free_count-append, free_total-append, has-frees-append, Tiles-split, Tiles-join, Tiles-frame,
}
use immutable_cache_pecl.Sma.Invariant.{IsSegment, not-frees}

-- the block at `cur` as if it were in use, whatever its `fnext` and the mark behind it are
abbrev pub settle : Blocks → ℕ → ℕ → Blocks
settle b cur h = record b { prev_size = write b.prev_size (cur + h) 0; fnext = write b.fnext cur 0 }

-- a map is what it is at one place and at all others
pub write_back :
    (f g : ℕ → ℕ) (o : ℕ) → ((a : ℕ) → (a == o) ≡ false → f a ≡ g a) → write f o (g o) ≡ g
write_back f g o same = fun_ext (λ a. elim (Bool-cases (a == o)) [
  | inl here ↦ rw here (ap g (sym ((==_iff a o).0 here)))
  | inr other ↦ rw other (same a other)
])

pub write_same : (f : ℕ → ℕ) (o v : ℕ) → f o ≡ v → write f o v ≡ f
write_same f o v e = rw (← e) (write_back f f o (λ a ne. refl))

-- a segment with other maps
abbrev pub with_maps : Segment → (ℕ → ℕ) → (ℕ → ℕ) → (ℕ → ℕ) → Segment
with_maps seg ps fn fp = record seg {
  blocks = record seg.blocks { prev_size = ps; fnext = fn; fprev = fp };
}

pub with_maps-IsSegment :
    (seg : Segment) (cells : List Cell) (list : List ℕ) {ps ps' fn fn' fp fp' : ℕ → ℕ}
    → ps ≡ ps'
    → fn ≡ fn'
    → fp ≡ fp'
    → IsSegment (with_maps seg ps fn fp) cells list
    → IsSegment (with_maps seg ps' fn' fp') cells list
with_maps-IsSegment seg cells list {ps} {ps'} {fn} {fn'} {fp} e₁ e₂ e₃ inv =
    subst (λ f. IsSegment (with_maps seg ps' fn' f) cells list) e₃
      (subst (λ f. IsSegment (with_maps seg ps' f fp) cells list) e₂
        (subst (λ f. IsSegment (with_maps seg f fn fp) cells list) e₁ inv))

-- the block behind a cell carries its mark
pub behind-Tiles :
    (sz ps fn : ℕ → ℕ) (o m : ℕ) (c : Cell) (rs : List Cell)
    → Tiles sz ps fn o m (c ∷ rs)
    → ps (end_of (o + c.size) rs) ≡ mark_of (mark c) rs
    → ps (o + c.size) ≡ mark c
behind-Tiles sz ps fn o m c [] t end = end
behind-Tiles sz ps fn o m c (d ∷ rs) t end = t.1.0.prev

module _ (seg : Segment) (ls : List Cell) (p s : ℕ) (rs : List Cell) (list : List ℕ) (v w : ℕ)
    (inv : IsSegment seg (ls ++ cell p false ∷ cell s false ∷ rs) list) where
  abbrev b : Blocks
  b = seg.blocks

  abbrev prv : ℕ
  prv = end_of start ls

  -- the block that vanishes
  abbrev cur : ℕ
  cur = prv + p

  abbrev last : ℕ
  last = last_of seg.segsize

  abbrev pub merged : Segment
  merged = record seg {
    blocks = record b {
      size = write b.size prv (p + s);
      prev_size = write b.prev_size cur v;
      fnext = write b.fnext cur w;
    };
  }

  pieces :
      Tiles b.size b.prev_size b.fnext start 0 ls
      × IsCell b.size b.prev_size b.fnext prv (mark_of 0 ls) (cell p false)
      × IsCell b.size b.prev_size b.fnext cur 0 (cell s false)
      × Tiles b.size b.prev_size b.fnext (cur + s) 0 rs
  pieces =
      let (t, u) =
        Tiles-split b.size b.prev_size b.fnext start 0 ls (cell p false ∷ cell s false ∷ rs)
          inv.tiles in
      (t, u.0, u.1.0, u.1.1)

  last_end : last ≡ end_of (cur + s) rs
  last_end = sym inv.ends ∙ end_of-append start ls (cell p false ∷ cell s false ∷ rs)

  range : (start ≤ prv) × (block_size ≤ p) × (block_size ≤ s) × (cur + s ≤ last)
  range =
      let (t, c, d, u) = pieces in
      let roomc = c.room in
      let roomd = d.room in
      (end_of-le start ls, roomc, roomd, omega (arith, last_end, end_of-le (cur + s) rs))

  cur_off_list : has cur list ≡ false
  cur_off_list =
      let (t, c, d, u) = pieces in
      let f = not-frees b.size b.prev_size b.fnext start 0 ls cur t (inr (omega (arith, range))) in
      let g =
        not-frees b.size b.prev_size b.fnext (cur + s) 0 rs cur u (inl (omega (arith, range))) in
      inv.members cur ∙ rw (has-frees-append, f, g)

  end_eq : cur + s ≡ prv + (p + s)
  end_eq = omega arith

  merged-Tiles :
      Tiles
        (write b.size prv (p + s))
        (write b.prev_size cur v)
        (write b.fnext cur w)
        start
        0
        (ls ++ cell (p + s) false ∷ rs)
  merged-Tiles =
      let (t, c, d, u) = pieces in
      Tiles-join _ _ _ start 0 ls (cell (p + s) false ∷ rs)
        (Tiles-frame b.size b.prev_size b.fnext _ _ _ start 0 ls
          (λ a l h. (ground (arith, range), ground (arith, range), (λ z. ground (arith, range)))) t)
        (
          record {
            size = rw (==_refl prv);
            room = omega (arith, range);
            prev = ground (arith, range, c.prev);
            apart = λ f. cc;
            used = λ f. ground (arith, range, c.used refl);
          },
          subst
              (λ o.
                Tiles (write b.size prv (p + s)) (write b.prev_size cur v) (write b.fnext cur w) o 0
                  rs)
              end_eq
              (Tiles-frame b.size b.prev_size b.fnext _ _ _ (cur + s) 0 rs
                (λ a l h.
                  (ground (arith, range), ground (arith, range), λ z. ground (arith, range)))
                u),
        )

  pub merged-IsSegment : IsSegment merged (ls ++ cell (p + s) false ∷ rs) list
  merged-IsSegment = record {
    tiles = merged-Tiles;
    ends =
        end_of-append start ls (cell (p + s) false ∷ rs)
        ∙ ap (λ o. end_of o rs) (sym end_eq)
        ∙ sym last_end;
    tail_size = ground (arith, range, inv.tail_size);
    tail_prev =
        let e : write b.prev_size cur v last ≡ b.prev_size last = ground (arith, range) in
        e
        ∙ inv.tail_prev
        ∙ mark_of-append 0 ls (cell p false ∷ cell s false ∷ rs)
        ∙ sym (mark_of-append 0 ls (cell (p + s) false ∷ rs));
    tail_next = ground (arith, range, inv.tail_next);
    linked =
        Linked-frame b.fnext b.fprev (write b.fnext cur w) b.fprev first list last
          (λ a i. rw (apart a cur (first ∷ list) i (ground (arith, cur_off_list, range))))
          (λ a i. refl) inv.linked;
    distinct = inv.distinct;
    members = λ a.
        inv.members a
        ∙ ground (
          arith,
          has-frees-append a start ls (cell p false ∷ cell s false ∷ rs),
          has-frees-append a start ls (cell (p + s) false ∷ rs),
          ap (λ o. has a (frees o rs)) end_eq,
        );
    count = omega (
      arith,
      inv.count,
      free_count-append ls (cell p false ∷ cell s false ∷ rs),
      free_count-append ls (cell (p + s) false ∷ rs),
    );
    avail = omega (
      arith,
      inv.avail,
      free_total-append ls (cell p false ∷ cell s false ∷ rs),
      free_total-append ls (cell (p + s) false ∷ rs),
    );
    small = inv.small;
  }
