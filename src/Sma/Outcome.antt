-- ===== src/Sma/Outcome.antt =====
-- `sma_allocate` as a whole: it fails exactly when no free block is large enough, and otherwise it
-- takes one such block and keeps the invariant.
use mathlib.Core.Path.{subst}
use immutable_cache_pecl.Prelude.{
  ℕ, ◌+◌, ◌-◌, ◌^◌, ◌≤◌, ◌<◌, ◌≡◌, ap, sym, ◌∙◌, true, false, List, [], ◌∷◌, ◌++◌, arith, length,
  Option, none, some, ltb, ◌==◌, Bool-cases, ==_refl, inl, inr,
}
use immutable_cache_pecl.Sma.Words.{alignword_bounds, add64, sub64, block_size}
use immutable_cache_pecl.Sma.Blocks.{Blocks, Segment, start}
use immutable_cache_pecl.Sma.Search.{find_block}
use immutable_cache_pecl.Sma.Allocate.{
  allocate, real_size, fits_whole, take_whole, split_block, finish,
}
use immutable_cache_pecl.Sma.Distinct.{has, part}
use immutable_cache_pecl.Sma.Tiles.{Cell, cell, end_of, free_total-append, locate}
use immutable_cache_pecl.Sma.Invariant.{IsSegment}
use immutable_cache_pecl.Sma.Taken.{take_whole-IsSegment}
use immutable_cache_pecl.Sma.Taken
use immutable_cache_pecl.Sma.Split.{split_block-IsSegment}
use immutable_cache_pecl.Sma.Find.{find_block-First}

-- the block asked for holds the payload and its header
pub real_size_lem : (n : ℕ) → n < 2 ^ 63 → n + block_size ≤ real_size n
unfolding real_size
real_size_lem n small = omega (
  arith,
  small,
  alignword_bounds (add64 n block_size) (omega (arith, small)) (omega (arith, small)),
)

-- The cells and the free list around the block that is taken.
pub record Around (cells : List Cell) (list : List ℕ) : Type 0 where
  pub left : List Cell
  pub size : ℕ
  pub right : List Cell
  pub front : List ℕ
  pub back : List ℕ
  pub cells_eq : cells ≡ left ++ cell size true ∷ right
  pub list_eq : list ≡ front ++ end_of start left ∷ back

-- no block of the list is of size `r`
abbrev pub AllSmaller : Blocks → ℕ → List ℕ → Type 0
AllSmaller b r [] = Unit {0}
AllSmaller b r (a ∷ rest) = (b.size a < r) × AllSmaller b r rest

all_smaller :
    (b : Blocks) (r : ℕ) (list : List ℕ)
    → ((a : ℕ) → has a list ≡ true → b.size a < r)
    → AllSmaller b r list
all_smaller b r [] each = tt
all_smaller b r (a ∷ rest) each =
    (each a (rw (==_refl a)), all_smaller b r rest (λ x i. each x (ground arith)))

-- What a call may do: `result` is what `allocate` returns.
pub data Outcome (seg : Segment) (n : ℕ) (cells : List Cell) (list : List ℕ)
    (result : Option (Option (ℕ × ℕ) × Segment)) : Type 0 where
  refused :
      result ≡ some (none, seg)
      → AllSmaller seg.blocks (real_size n) list
      → Outcome seg n cells list result
  whole :
      (at : Around cells list) (seg' : Segment)
      → n + block_size ≤ at.size
      → result ≡ some (some (end_of start at.left + block_size, at.size - block_size), seg')
      → IsSegment seg' (at.left ++ cell at.size false ∷ at.right) (at.front ++ at.back)
      → Outcome seg n cells list result
  split :
      (at : Around cells list) (seg' : Segment)
      → n + block_size ≤ real_size n
      → real_size n + block_size ≤ at.size
      → result ≡ some (some (end_of start at.left + block_size, real_size n - block_size), seg')
      → IsSegment seg'
          (at.left ++ cell (real_size n) false ∷ cell (at.size - real_size n) true ∷ at.right)
          (at.front ++ (end_of start at.left + real_size n) ∷ at.back)
      → Outcome seg n cells list result

-- a free offset names a cell and a place in the list
around :
    (seg : Segment) (cells : List Cell) (list : List ℕ) (a : ℕ)
    → IsSegment seg cells list
    → has a list ≡ true
    → (at : Around cells list) × (end_of start at.left ≡ a)
around seg cells list a inv i =
    let (front, back, e) = part a list i in
    let (ls, s, rs, f, at) = locate start cells a (sym (inv.members a) ∙ i) in
    (
      record {
        left = ls;
        size = s;
        right = rs;
        front = front;
        back = back;
        cells_eq = f;
        list_eq = e ∙ ap (λ o. front ++ o ∷ back) (sym at);
      },
      at,
    )

-- the invariant in terms of these
settled :
    (seg : Segment) (cells : List Cell) (list : List ℕ) (at : Around cells list)
    → IsSegment seg cells list
    → IsSegment seg
        (at.left ++ cell at.size true ∷ at.right)
        (at.front ++ end_of start at.left ∷ at.back)
settled seg cells list at inv =
    subst (λ l. IsSegment seg (at.left ++ cell at.size true ∷ at.right) l) at.list_eq
      (subst (λ c. IsSegment seg c list) at.cells_eq inv)

-- no free block is larger than what the header counts
size-le :
    (seg : Segment) (cells : List Cell) (list : List ℕ) (a : ℕ)
    → IsSegment seg cells list
    → has a list ≡ true
    → seg.blocks.size a ≤ seg.avail
size-le seg cells list a inv i =
    let (at, here) = around seg cells list a inv i in
    let inv' = settled seg cells list at inv in
    let e = Taken.size_cur seg at.left at.size at.right at.front at.back inv' in
    omega (
      arith,
      e,
      ap seg.blocks.size here,
      inv'.avail,
      free_total-append at.left (cell at.size true ∷ at.right),
    )

module _ (fuel : ℕ) (seg : Segment) (n fragment : ℕ) (cells : List Cell) (list : List ℕ)
    (at : Around cells list) (inv : IsSegment seg cells list) (small : n < 2 ^ 63)
    (few : fragment < 2 ^ 62) (room : ltb seg.avail (real_size n) ≡ false)
    (found : find_block fuel seg.blocks (real_size n) ≡ some (end_of start at.left))
    (fits : real_size n ≤ at.size) where
  abbrev cur : ℕ
  cur = end_of start at.left

  inv' :
      IsSegment seg
        (at.left ++ cell at.size true ∷ at.right)
        (at.front ++ end_of start at.left ∷ at.back)
  inv' = settled seg cells list at inv

  size_cur : seg.blocks.size cur ≡ at.size
  size_cur = Taken.size_cur seg at.left at.size at.right at.front at.back inv'

  bounds : (n + block_size ≤ real_size n) × (at.size < 2 ^ 63) × ((cur == 0) ≡ false)
  bounds =
      let range = Taken.cur_range seg at.left at.size at.right at.front at.back inv' in
      (real_size_lem n small, omega (arith, range, inv.small), ground (arith, range))

  rest_size : sub64 at.size block_size ≡ at.size - block_size
  rest_size = omega (arith, bounds, fits)

  real_rest_size : sub64 (real_size n) block_size ≡ real_size n - block_size
  real_rest_size = omega (arith, bounds, fits)

  taken : Outcome seg n cells list (allocate fuel seg n fragment)
  unfolding allocate
  taken = elim (Bool-cases (fits_whole at.size (real_size n) fragment)) [
    | inl close ↦
        whole at (finish seg (take_whole seg.blocks cur) cur) (omega (arith, bounds, fits))
          (rw (room, found, bounds.2, size_cur, close, rest_size))
          (take_whole-IsSegment seg at.left at.size at.right at.front at.back inv')
    | inr far ↦
        let wide : real_size n + block_size ≤ at.size = ground (arith, bounds, few) in
        split at (finish seg (split_block seg.blocks cur (real_size n)) cur) bounds.0 wide
          (rw (room, found, bounds.2, size_cur, far, real_rest_size))
          (split_block-IsSegment seg at.left at.size at.right at.front at.back inv' (real_size n)
            (omega (arith, bounds)) wide)
  ]

-- With the invariant, a size below 2^63, a fragment below 2^62 and fuel of two more than the
-- length of the free list, an allocation either changes nothing and no free block is as large as
-- the block asked for, or it returns the payload of a free block that holds the size and its
-- header, taken whole or split, and the invariant holds of the tiling in which that block is in
-- use.
pub allocate-Outcome :
    (fuel : ℕ) (seg : Segment) (n fragment : ℕ) (cells : List Cell) (list : List ℕ)
    → IsSegment seg cells list
    → n < 2 ^ 63
    → fragment < 2 ^ 62
    → length list + 2 ≤ fuel
    → Outcome seg n cells list (allocate fuel seg n fragment)
unfolding allocate
allocate-Outcome fuel seg n fragment cells list inv small few enough =
    let r = real_size n in
    let b = seg.blocks in
    elim (Bool-cases (ltb seg.avail r)) [
      | inl full ↦
          refused (rw full)
            (all_smaller b r list λ a i. ground (arith, full, size-le seg cells list a inv i))
      | inr room ↦
          elim (find_block-First seg cells list r fuel inv (omega (arith, real_size_lem n small))
            enough) [
              | inl (e, each) ↦ refused (rw (room, e)) (all_smaller b r list each)
              | inr (a, e, i, fits) ↦
                  let (at, here) = around seg cells list a inv i in
                  let size_at =
                    Taken.size_cur seg at.left at.size at.right at.front at.back
                      (settled seg cells list at inv) in
                  taken fuel seg n fragment cells list at inv small few room
                    (e ∙ ap some (sym here)) (rw (← size_at, here) fits)
            ]
    ]
