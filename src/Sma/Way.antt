-- ===== src/Sma/Way.antt =====
-- `sma_deallocate` between its two joins: what holds of the block that it has in hand.
use mathlib.Core.Path.{subst}
use mathlib.Core.List.{append_assoc}
use immutable_cache_pecl.Prelude.{
  ℕ, ◌+◌, ◌≡◌, refl, ap, sym, ◌∙◌, true, false, List, [], ◌∷◌, ◌++◌, arith, Bool-cases, ==_refl,
  inl, inr,
}
use immutable_cache_pecl.Sma.Words.{sub64}
use immutable_cache_pecl.Sma.Blocks.{Blocks, Segment, start}
use immutable_cache_pecl.Sma.Deallocate.{join_prev, join_next}
use immutable_cache_pecl.Sma.Distinct.{part}
use immutable_cache_pecl.Sma.Tiles.{
  Cell, cell, mark_of, end_of, end_of-append, mark_of-append, free_total-append, has-frees-append,
  Tiles-split,
}
use immutable_cache_pecl.Sma.Invariant.{IsSegment, front_free, front-apart}
use immutable_cache_pecl.Sma.Held.{settle, behind-Tiles, write_same, with_maps-IsSegment}
use immutable_cache_pecl.Sma.JoinPrev.{joined, join_prev_lem, prev-IsSegment}
use immutable_cache_pecl.Sma.JoinNext.{join_next_lem, next-IsSegment}
use immutable_cache_pecl.Sma.Coalesce.{coalesce, coalesce_pair, last_cell}

-- A deallocation on its way: `avail` does not count the block at the end of `ls`, of size `h`.
pub record Way (seg : Segment) (s : ℕ) (cells : List Cell) : Type 0 where
  pub ls : List Cell
  pub h : ℕ
  pub rs : List Cell
  pub list : List ℕ
  pub avail : ℕ
  pub blocks : Blocks
  pub inv :
      IsSegment
        (record seg { avail = avail; blocks = settle blocks (end_of start ls) h })
        (ls ++ cell h false ∷ rs)
        list
  pub before : mark_of 0 ls ≡ 0
  pub sum : avail + h ≡ seg.avail + s
  pub same : coalesce cells ≡ coalesce (ls ++ cell h true ∷ rs)

-- a free cell is on the list
free_part :
    (seg : Segment) (ls : List Cell) (p : ℕ) (rs : List Cell) (list : List ℕ)
    → IsSegment seg (ls ++ cell p true ∷ rs) list
    → (front : List ℕ) × (back : List ℕ) × (list ≡ front ++ end_of start ls ∷ back)
free_part seg ls p rs list inv = part (end_of start ls) list (
    inv.members (end_of start ls)
    ∙ ground (
      arith,
      has-frees-append (end_of start ls) start ls (cell p true ∷ rs),
      ==_refl (end_of start ls),
    ))

-- the block behind one in use is not linked unless it is free
next_zero :
    (seg : Segment) (ls : List Cell) (c : Cell) (rs : List Cell) (list : List ℕ)
    → IsSegment seg (ls ++ c ∷ rs) list
    → front_free rs ≡ false
    → seg.blocks.fnext (end_of start ls + c.size) ≡ 0
next_zero seg ls c [] list inv used =
    ap seg.blocks.fnext (sym (end_of-append start ls (c ∷ [])) ∙ inv.ends) ∙ inv.tail_next
next_zero seg ls c (d ∷ rs) list inv used =
    let b = seg.blocks in
    let (t, u) = Tiles-split b.size b.prev_size b.fnext start 0 ls (c ∷ d ∷ rs) inv.tiles in
    u.1.0.used used

front_cell :
    (rs : List Cell)
    → front_free rs ≡ true
    → (q : ℕ) × (rest : List Cell) × (rs ≡ cell q true ∷ rest)
front_cell [] free = cc
front_cell (c ∷ rs) free = (c.size, rs, ground arith)

module _ (seg : Segment) (s : ℕ) where
  take_prev :
      (ls : List Cell) (p : ℕ) (rs : List Cell) (list : List ℕ)
      → IsSegment seg (ls ++ cell p true ∷ cell s false ∷ rs) list
      → (way : Way seg s (ls ++ cell p true ∷ cell s true ∷ rs)) × (join_prev seg.blocks
            (end_of start ls + p)
          ≡ (end_of start way.ls, way.blocks))
  take_prev ls p rs list inv =
      let b = seg.blocks in
      let prv = end_of start ls in
      let (t, u) =
        Tiles-split b.size b.prev_size b.fnext start 0 ls (cell p true ∷ cell s false ∷ rs)
          inv.tiles in
      let (front, back, e) = free_part seg ls p (cell s false ∷ rs) list inv in
      let inv₁ = subst (λ l. IsSegment seg (ls ++ cell p true ∷ cell s false ∷ rs) l) e inv in
      let inv₂ = prev-IsSegment seg ls p s rs front back inv₁ in
      (
        record {
          ls = ls;
          h = p + s;
          rs = rs;
          list = front ++ back;
          avail = sub64 seg.avail p;
          blocks = joined b prv prv (p + s);
          inv = inv₂;
          before = u.0.apart refl;
          sum = omega (
            arith,
            inv₂.avail,
            inv.avail,
            free_total-append ls (cell (p + s) false ∷ rs),
            free_total-append ls (cell p true ∷ cell s false ∷ rs),
          );
          same = coalesce_pair ls p s rs;
        },
        join_prev_lem seg ls p s rs front back inv₁,
      )

  pub after_prev :
      (ls rs : List Cell) (list : List ℕ)
      → IsSegment seg (ls ++ cell s false ∷ rs) list
      → (way : Way seg s (ls ++ cell s true ∷ rs)) × (join_prev seg.blocks (end_of start ls)
          ≡ (end_of start way.ls, way.blocks))
  unfolding join_prev
  after_prev ls rs list inv =
      let b = seg.blocks in
      let cur = end_of start ls in
      let fprev_same : b.fprev ≡ b.fprev = refl in
      elim (last_cell ls) [
        | inl used ↦
            let (t, u) =
              Tiles-split b.size b.prev_size b.fnext start 0 ls (cell s false ∷ rs) inv.tiles in
            let tail =
              ap b.prev_size (sym (end_of-append start ls (cell s false ∷ rs)) ∙ inv.ends)
              ∙ inv.tail_prev
              ∙ mark_of-append 0 ls (cell s false ∷ rs) in
            let behind =
              behind-Tiles b.size b.prev_size b.fnext cur (mark_of 0 ls) (cell s false) rs u tail in
            (
              record {
                ls = ls;
                h = s;
                rs = rs;
                list = list;
                avail = seg.avail;
                blocks = b;
                inv =
                    with_maps-IsSegment seg (ls ++ cell s false ∷ rs) list
                      (sym (write_same b.prev_size (cur + s) 0 behind))
                      (sym (write_same b.fnext cur 0 (u.0.used refl))) fprev_same inv;
                before = used;
                sum = refl;
                same = refl;
              },
              ground (arith, u.0.prev),
            )
        | inr (front, p, e) ↦
            subst
              (λ l.
                IsSegment seg (l ++ cell s false ∷ rs) list
                → (way : Way seg s (l ++ cell s true ∷ rs)) × (join_prev b (end_of start l)
                    ≡ (end_of start way.ls, way.blocks)))
              (sym e)
              (λ inv₁.
                rw (append_assoc, end_of-append)
                  (take_prev front p rs list (rw append_assoc at inv₁)))
              inv
      ]

  take_next :
      (cells : List Cell) (way : Way seg s cells) (q : ℕ) (rs : List Cell)
      → way.rs ≡ cell q true ∷ rs
      → (way' : Way seg s cells) × (way'.ls ≡ way.ls)
        × (join_next way.blocks (end_of start way.ls) ≡ way'.blocks)
        × (front_free way'.rs ≡ false)
  take_next cells way q rs e =
      let ls = way.ls in
      let h = way.h in
      let b = way.blocks in
      let cur = end_of start ls in
      let held : Segment = record seg { avail = way.avail; blocks = settle b cur h } in
      let bare : Segment = record seg { avail = way.avail; blocks = b } in
      let inv = subst (λ r. IsSegment held (ls ++ cell h false ∷ r) way.list) e way.inv in
      let inv' : IsSegment held ((ls ++ cell h false ∷ []) ++ cell q true ∷ rs) way.list =
        rw append_assoc inv in
      let (front, back, f) = free_part held (ls ++ cell h false ∷ []) q rs way.list inv' in
      let g : way.list ≡ front ++ (cur + h) ∷ back =
        f ∙ ap (λ o. front ++ o ∷ back) (end_of-append start ls (cell h false ∷ [])) in
      let inv₁ = subst (λ l. IsSegment held (ls ++ cell h false ∷ cell q true ∷ rs) l) g inv in
      let inv₂ = next-IsSegment bare ls h q rs front back inv₁ in
      let (t, u) =
        Tiles-split held.blocks.size held.blocks.prev_size held.blocks.fnext start 0 ls
          (cell h false ∷ cell q true ∷ rs) inv.tiles in
      (
        record {
          ls = ls;
          h = h + q;
          rs = rs;
          list = front ++ back;
          avail = sub64 way.avail q;
          blocks = joined b (cur + h) cur (h + q);
          inv = inv₂;
          before = way.before;
          sum = omega (
            arith,
            way.sum,
            inv₂.avail,
            inv.avail,
            free_total-append ls (cell (h + q) false ∷ rs),
            free_total-append ls (cell h false ∷ cell q true ∷ rs),
          );
          same = way.same ∙ ap (λ r. coalesce (ls ++ cell h true ∷ r)) e ∙ coalesce_pair ls h q rs;
        },
        refl,
        join_next_lem bare ls h q rs front back inv₁,
        elim (Bool-cases (front_free rs)) [
          | inl free ↦
              let room = u.1.0.room in
              absurd (
                omega (
                  arith,
                  front-apart held.blocks.size held.blocks.prev_size held.blocks.fnext (cur + h + q)
                      q rs u.1.1 free,
                ))
          | inr used ↦ used
        ],
      )

  pub after_next :
      (cells : List Cell) (way : Way seg s cells)
      → (way' : Way seg s cells) × (way'.ls ≡ way.ls)
        × (join_next way.blocks (end_of start way.ls) ≡ way'.blocks)
        × (front_free way'.rs ≡ false)
  unfolding join_next
  after_next cells way = elim (Bool-cases (front_free way.rs)) [
    | inl free ↦ let (q, rs, e) = front_cell way.rs free in take_next cells way q rs e
    | inr used ↦
        let b = way.blocks in
        let cur = end_of start way.ls in
        let held : Segment = record seg { avail = way.avail; blocks = settle b cur way.h } in
        let (t, u) =
          Tiles-split held.blocks.size held.blocks.prev_size held.blocks.fnext start 0 way.ls
            (cell way.h false ∷ way.rs) way.inv.tiles in
        let room = u.0.room in
        let none_next = next_zero held way.ls (cell way.h false) way.rs way.list way.inv used in
        let z : b.fnext (cur + way.h) ≡ 0 = ground arith in
        let size_cur : b.size cur ≡ way.h = u.0.size in (way, refl, rw (size_cur, z), used)
  ]
