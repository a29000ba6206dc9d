-- ===== src/Sma/Coalesce.antt =====
-- What freeing does to the cells: no two free cells stay side by side.
use immutable_cache_pecl.Prelude.{
  ℕ, ◌+◌, ◌<◌, ◌≡◌, ◌⊎◌, inl, inr, Bool-cases, refl, ap, ◌∙◌, true, ◌&&◌, List, [], ◌∷◌, ◌++◌,
  arith, if◌then◌else◌,
}
use immutable_cache_pecl.Sma.Tiles.{Cell, cell, mark, mark_of, Tiles}

-- a cell in front of others, as one with the first of them if both are free
abbrev pub absorb : Cell → List Cell → List Cell
absorb c [] = c ∷ []
absorb c (d ∷ ds) = if c.free && d.free then cell (c.size + d.size) true ∷ ds else c ∷ d ∷ ds

abbrev pub coalesce : List Cell → List Cell
coalesce [] = []
coalesce (c ∷ cs) = absorb c (coalesce cs)

-- behind the mark `m` no two free cells stand side by side
abbrev pub IsTidy : ℕ → List Cell → Type 0
IsTidy m [] = Unit {0}
IsTidy m (c ∷ cs) = (0 < c.size) × (c.free ≡ true → m ≡ 0) × IsTidy (mark c) cs

pub Tiles-IsTidy :
    (sz ps fn : ℕ → ℕ) (o m : ℕ) (cs : List Cell) → Tiles sz ps fn o m cs → IsTidy m cs
Tiles-IsTidy sz ps fn o m [] t = tt
Tiles-IsTidy sz ps fn o m (c ∷ cs) t =
    let room = t.0.room in
    (omega arith, t.0.apart, Tiles-IsTidy sz ps fn (o + c.size) (mark c) cs t.1)

pub IsTidy-append :
    (m : ℕ) (ls rs : List Cell) → IsTidy m (ls ++ rs) → IsTidy m ls × IsTidy (mark_of m ls) rs
IsTidy-append m [] rs t = (tt, t)
IsTidy-append m (c ∷ ls) rs t =
    let (front, back) = IsTidy-append (mark c) ls rs t.2 in ((t.0, t.1, front), back)

pub IsTidy-join :
    (m : ℕ) (ls rs : List Cell) → IsTidy m ls → IsTidy (mark_of m ls) rs → IsTidy m (ls ++ rs)
IsTidy-join m [] rs t u = u
IsTidy-join m (c ∷ ls) rs t u = (t.0, t.1, IsTidy-join (mark c) ls rs t.2 u)

absorb_tidy : (m : ℕ) (c : Cell) (cs : List Cell) → IsTidy m (c ∷ cs) → absorb c cs ≡ c ∷ cs
absorb_tidy m c [] t = refl
absorb_tidy m c (d ∷ ds) t = ground (arith, t.2.1)

-- tidy cells stay as they are
pub coalesce_tidy : (m : ℕ) (cs : List Cell) → IsTidy m cs → coalesce cs ≡ cs
coalesce_tidy m [] t = refl
coalesce_tidy m (c ∷ cs) t = ap (absorb c) (coalesce_tidy (mark c) cs t.2) ∙ absorb_tidy m c cs t

-- cells in front of others stay when they and the first of the others are tidy
pub coalesce-append :
    (m : ℕ) (ls xs : List Cell) (y : Cell) (ys : List Cell)
    → coalesce xs ≡ y ∷ ys
    → IsTidy m (ls ++ y ∷ [])
    → coalesce (ls ++ xs) ≡ ls ++ y ∷ ys
coalesce-append m [] xs y ys e t = e
coalesce-append m (c ∷ []) xs y ys e t = ap (absorb c) e ∙ ground (arith, t.2.1)
coalesce-append m (c ∷ d ∷ ls) xs y ys e t =
    ap (absorb c) (coalesce-append (mark c) (d ∷ ls) xs y ys e t.2) ∙ ground (arith, t.2.1)

absorb-absorb :
    (p q : ℕ) (xs : List Cell)
    → absorb (cell p true) (absorb (cell q true) xs) ≡ absorb (cell (p + q) true) xs
absorb-absorb p q [] = refl
absorb-absorb p q (x ∷ xs) = ground arith

-- two free cells side by side are as good as one
pub coalesce_pair :
    (ls : List Cell) (p q : ℕ) (rs : List Cell)
    → coalesce (ls ++ cell p true ∷ cell q true ∷ rs) ≡ coalesce (ls ++ cell (p + q) true ∷ rs)
coalesce_pair [] p q rs = absorb-absorb p q (coalesce rs)
coalesce_pair (c ∷ ls) p q rs = ap (absorb c) (coalesce_pair ls p q rs)

-- the cell in front of a place is in use, or it is there and free
pub last_cell :
    (ls : List Cell)
    → (mark_of 0 ls ≡ 0) ⊎ ((front : List Cell) × (p : ℕ) × (ls ≡ front ++ cell p true ∷ []))
last_cell [] = inl refl
last_cell (c ∷ []) = elim (Bool-cases c.free) [
  | inl free ↦ inr ([], c.size, ground arith)
  | inr used ↦ inl (rw used)
]
last_cell (c ∷ d ∷ ls) = elim (last_cell (d ∷ ls)) [
  | inl used ↦ inl used
  | inr (front, p, e) ↦ inr (c ∷ front, p, ap (λ xs. c ∷ xs) e)
]
