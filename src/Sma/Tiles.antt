-- ===== src/Sma/Tiles.antt =====
-- The blocks of a segment in the order of their offsets, as cells that are free or in use.
use immutable_cache_pecl.Prelude.{
  ℕ, ◌+◌, ◌≤◌, ◌<◌, ◌≡◌, refl, ap, ◌∙◌, Bool, true, false, ◌||◌, ◌&&◌, List, [], ◌∷◌, ◌++◌, arith,
  ◌==◌, if◌then◌else◌, Bool-cases, inl, inr,
}
use immutable_cache_pecl.Sma.Words.{block_size}
use immutable_cache_pecl.Sma.Distinct.{has}

pub record Cell : Type 0 where
  pub size : ℕ
  pub free : Bool

abbrev pub cell : ℕ → Bool → Cell
cell s f = record { size = s; free = f }

-- what the block behind a cell stores as `prev_size`
abbrev pub mark : Cell → ℕ
mark c = if c.free then c.size else 0

abbrev pub mark_of : ℕ → List Cell → ℕ
mark_of m [] = m
mark_of m (c ∷ cs) = mark_of (mark c) cs

abbrev pub end_of : ℕ → List Cell → ℕ
end_of o [] = o
end_of o (c ∷ cs) = end_of (o + c.size) cs

-- The offsets of the free cells, their number and their size.
abbrev pub frees : ℕ → List Cell → List ℕ
frees o [] = []
frees o (c ∷ cs) = if c.free then o ∷ frees (o + c.size) cs else frees (o + c.size) cs

abbrev pub free_count : List Cell → ℕ
free_count [] = 0
free_count (c ∷ cs) = (if c.free then 1 else 0) + free_count cs

abbrev pub free_total : List Cell → ℕ
free_total [] = 0
free_total (c ∷ cs) = mark c + free_total cs

-- What the memory says of one cell at `o`, whose predecessor left the mark `m`. No two cells in a
-- row are free, and a block in use has no `fnext`.
pub record IsCell (sz ps fn : ℕ → ℕ) (o m : ℕ) (c : Cell) : Type 0 where
  pub size : sz o ≡ c.size
  pub room : block_size ≤ c.size
  pub prev : ps o ≡ m
  pub apart : c.free ≡ true → m ≡ 0
  pub used : c.free ≡ false → fn o ≡ 0

abbrev pub Tiles : (sz ps fn : ℕ → ℕ) → ℕ → ℕ → List Cell → Type 0
Tiles sz ps fn o m [] = Unit {0}
Tiles sz ps fn o m (c ∷ cs) = IsCell sz ps fn o m c × Tiles sz ps fn (o + c.size) (mark c) cs

pub end_of-append : (o : ℕ) (ls rs : List Cell) → end_of o (ls ++ rs) ≡ end_of (end_of o ls) rs
end_of-append o [] rs = refl
end_of-append o (a ∷ ls) rs = end_of-append (o + a.size) ls rs

pub end_of-le : (o : ℕ) (cs : List Cell) → o ≤ end_of o cs
end_of-le o [] = omega arith
end_of-le o (c ∷ cs) = omega (arith, end_of-le (o + c.size) cs)

pub mark_of-append : (m : ℕ) (ls rs : List Cell) → mark_of m (ls ++ rs) ≡ mark_of (mark_of m ls) rs
mark_of-append m [] rs = refl
mark_of-append m (a ∷ ls) rs = mark_of-append (mark a) ls rs

pub free_count-append : (ls rs : List Cell) → free_count (ls ++ rs) ≡ free_count ls + free_count rs
free_count-append [] rs = omega arith
free_count-append (a ∷ ls) rs = omega (arith, free_count-append ls rs)

pub free_total-append : (ls rs : List Cell) → free_total (ls ++ rs) ≡ free_total ls + free_total rs
free_total-append [] rs = omega arith
free_total-append (a ∷ ls) rs = omega (arith, free_total-append ls rs)

pub has-frees-append :
    (a o : ℕ) (ls rs : List Cell)
    → has a (frees o (ls ++ rs)) ≡ (has a (frees o ls) || has a (frees (end_of o ls) rs))
has-frees-append a o [] rs = refl
has-frees-append a o (c ∷ ls) rs = ground (arith, has-frees-append a (o + c.size) ls rs)

module _ (sz ps fn : ℕ → ℕ) where
  pub Tiles-split :
      (o m : ℕ) (ls rs : List Cell)
      → Tiles sz ps fn o m (ls ++ rs)
      → Tiles sz ps fn o m ls × Tiles sz ps fn (end_of o ls) (mark_of m ls) rs
  Tiles-split o m [] rs t = (tt, t)
  Tiles-split o m (a ∷ ls) rs t =
      let (front, back) = Tiles-split (o + a.size) (mark a) ls rs t.1 in ((t.0, front), back)

  pub Tiles-join :
      (o m : ℕ) (ls rs : List Cell)
      → Tiles sz ps fn o m ls
      → Tiles sz ps fn (end_of o ls) (mark_of m ls) rs
      → Tiles sz ps fn o m (ls ++ rs)
  Tiles-join o m [] rs t u = u
  Tiles-join o m (a ∷ ls) rs t u = (t.0, Tiles-join (o + a.size) (mark a) ls rs t.1 u)

  -- cells do not see writes outside of their range, nor links that are changed but stay
  pub Tiles-frame :
      (sz' ps' fn' : ℕ → ℕ) (o m : ℕ) (cs : List Cell)
      → ((a : ℕ)
          → o ≤ a
          → a < end_of o cs
          → (sz' a ≡ sz a) × (ps' a ≡ ps a) × (fn a ≡ 0 → fn' a ≡ 0))
      → Tiles sz ps fn o m cs
      → Tiles sz' ps' fn' o m cs
  Tiles-frame sz' ps' fn' o m [] same t = tt
  Tiles-frame sz' ps' fn' o m (c ∷ cs) same t =
      let (s₀, p₀, n₀) = same o (omega arith) (omega (arith, end_of-le (o + c.size) cs)) in
      (
        record {
          size = s₀ ∙ t.0.size;
          room = t.0.room;
          prev = p₀ ∙ t.0.prev;
          apart = t.0.apart;
          used = λ u. n₀ (t.0.used u);
        },
        Tiles-frame sz' ps' fn' (o + c.size) (mark c) cs (λ a lo hi. same a (omega arith) hi) t.1,
      )

-- a free offset is that of a free cell
pub locate :
    (o : ℕ) (cs : List Cell) (a : ℕ)
    → has a (frees o cs) ≡ true
    → (ls : List Cell) × (s : ℕ) × (rs : List Cell) × (cs ≡ ls ++ cell s true ∷ rs)
      × (end_of o ls ≡ a)
locate o [] a i = cc
locate o (c ∷ cs) a i = elim (Bool-cases (c.free && a == o)) [
  | inl here ↦ ([], c.size, cs, ground arith, ground arith)
  | inr there ↦
      let (ls, s, rs, e, at) = locate (o + c.size) cs a (ground arith) in
      (c ∷ ls, s, rs, ap (λ xs. c ∷ xs) e, at)
]
