-- ===== src/Sma/Invariant.antt =====
-- The invariant of a segment: its blocks tile it from the first to the last sentinel, and its free
-- list goes through exactly the free ones.
use immutable_cache_pecl.Prelude.{
  ℕ, ◌+◌, ◌*◌, ◌^◌, ◌≤◌, ◌<◌, ◌≡◌, ◌≢◌, ◌∙◌, ◌⊎◌, Bool, true, false, List, [], ◌∷◌, arith, length,
  ◌==◌, Bool-cases, inl, inr,
}
use immutable_cache_pecl.Sma.Words.{block_size}
use immutable_cache_pecl.Sma.Blocks.{Segment, first, start, last_of}
use immutable_cache_pecl.Sma.Distinct.{has, Distinct}
use immutable_cache_pecl.Sma.Links.{Linked}
use immutable_cache_pecl.Sma.Tiles.{
  Cell, mark, mark_of, end_of, end_of-le, frees, free_count, free_total, Tiles, Tiles-frame,
}

pub record IsSegment (seg : Segment) (cells : List Cell) (list : List ℕ) : Type 0 where
  pub tiles : Tiles seg.blocks.size seg.blocks.prev_size seg.blocks.fnext start 0 cells
  pub ends : end_of start cells ≡ last_of seg.segsize
  pub tail_size : seg.blocks.size (last_of seg.segsize) ≡ 0
  pub tail_prev : seg.blocks.prev_size (last_of seg.segsize) ≡ mark_of 0 cells
  pub tail_next : seg.blocks.fnext (last_of seg.segsize) ≡ 0
  pub linked : Linked seg.blocks.fnext seg.blocks.fprev first list (last_of seg.segsize)
  pub distinct : Distinct list
  pub members : (a : ℕ) → has a list ≡ has a (frees start cells)
  pub count : length list ≡ free_count cells
  -- The header counts one `block_t` more than the free blocks hold.
  pub avail : seg.avail ≡ free_total cells + block_size
  pub small : seg.segsize < 2 ^ 63

-- The free cells and the cells themselves lie in their range.
pub frees_range :
    (sz ps fn : ℕ → ℕ) (o m : ℕ) (cs : List Cell) (a : ℕ)
    → Tiles sz ps fn o m cs
    → has a (frees o cs) ≡ true
    → (o ≤ a) × (a < end_of o cs)
frees_range sz ps fn o m [] a t i = cc
frees_range sz ps fn o m (c ∷ cs) a t i = elim (Bool-cases (a == o)) [
  | inl here ↦ ground (arith, t.0.room, end_of-le (o + c.size) cs)
  | inr there ↦ ground (arith, frees_range sz ps fn (o + c.size) (mark c) cs a t.1)
]

pub not-frees :
    (sz ps fn : ℕ → ℕ) (o m : ℕ) (cs : List Cell) (a : ℕ)
    → Tiles sz ps fn o m cs
    → (a < o) ⊎ (end_of o cs ≤ a)
    → has a (frees o cs) ≡ false
not-frees sz ps fn o m cs a t out = elim (Bool-cases (has a (frees o cs))) [
  | inl there ↦ absurd (ground (arith, frees_range sz ps fn o m cs a t there))
  | inr off ↦ off
]

pub free_total-le :
    (sz ps fn : ℕ → ℕ) (o m : ℕ) (cs : List Cell)
    → Tiles sz ps fn o m cs
    → (o + free_total cs ≤ end_of o cs) × (o + 32 * free_count cs ≤ end_of o cs)
free_total-le sz ps fn o m [] t = (omega arith, omega arith)
free_total-le sz ps fn o m (c ∷ cs) t =
    ground (arith, t.0.room, free_total-le sz ps fn (o + c.size) (mark c) cs t.1)

abbrev pub front_free : List Cell → Bool
front_free [] = false
front_free (c ∷ cs) = c.free

-- A change of the mark in front of the cells: only the first of them and the end see it.
pub Tiles-mark :
    (sz ps fn sz' ps' fn' : ℕ → ℕ) (o m m' : ℕ) (cs : List Cell)
    → ((a : ℕ)
        → o ≤ a
        → a ≤ end_of o cs
        → (sz' a ≡ sz a) × (a ≢ o → ps' a ≡ ps a) × (fn a ≡ 0 → fn' a ≡ 0))
    → ps' o ≡ m'
    → (front_free cs ≡ true → m' ≡ 0)
    → Tiles sz ps fn o m cs
    → ps (end_of o cs) ≡ mark_of m cs
    → Tiles sz' ps' fn' o m' cs × (ps' (end_of o cs) ≡ mark_of m' cs)
Tiles-mark sz ps fn sz' ps' fn' o m m' [] same at keep t end = (tt, at)
Tiles-mark sz ps fn sz' ps' fn' o m m' (c ∷ cs) same at keep t end =
    let (s₀, p₀, n₀) = same o (omega arith) (end_of-le o (c ∷ cs)) in
    let behind = end_of-le (o + c.size) cs in
    let room = t.0.room in
    (
      (
        record {
          size = s₀ ∙ t.0.size;
          room = room;
          prev = at;
          apart = keep;
          used = λ u. n₀ (t.0.used u);
        },
        Tiles-frame sz ps fn sz' ps' fn' (o + c.size) (mark c) cs
            (λ a lo hi.
              let (s₁, p₁, n₁) = same a (omega arith) (omega arith) in (s₁, p₁ (omega arith), n₁))
            t.1,
      ),
      (same (end_of (o + c.size) cs) (omega arith) (omega arith)).1 (omega arith) ∙ end,
    )

pub front-apart :
    (sz ps fn : ℕ → ℕ) (o m : ℕ) (cs : List Cell)
    → Tiles sz ps fn o m cs
    → front_free cs ≡ true
    → m ≡ 0
front-apart sz ps fn o m [] t f = cc
front-apart sz ps fn o m (c ∷ cs) t f = t.0.apart f

-- A mark that was zero stays so.
pub Tiles-remark :
    (sz ps fn sz' ps' fn' : ℕ → ℕ) (o m m' : ℕ) (cs : List Cell)
    → ((a : ℕ)
        → o ≤ a
        → a ≤ end_of o cs
        → (sz' a ≡ sz a) × (a ≢ o → ps' a ≡ ps a) × (fn a ≡ 0 → fn' a ≡ 0))
    → ps' o ≡ m'
    → (m ≡ 0 → m' ≡ 0)
    → Tiles sz ps fn o m cs
    → ps (end_of o cs) ≡ mark_of m cs
    → Tiles sz' ps' fn' o m' cs × (ps' (end_of o cs) ≡ mark_of m' cs)
Tiles-remark sz ps fn sz' ps' fn' o m m' cs same at keep t end =
    Tiles-mark sz ps fn sz' ps' fn' o m m' cs same at (λ f. keep (front-apart sz ps fn o m cs t f))
      t end
