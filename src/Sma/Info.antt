-- ===== src/Sma/Info.antt =====
-- `immutable_cache_sma_info`: the free blocks of every segment.
use immutable_cache_pecl.Prelude.{
  ℕ, zero, suc, ◌+◌, ◌<◌, ◌≡◌, ◌≢◌, refl, ap, ◌∙◌, Bool, true, false, List, [], ◌∷◌, ◌++◌, Option,
  none, some, map, length, arith, ◌==◌, if◌then◌else◌, inl, ==_iff, Bool-cases, inr,
}
use immutable_cache_pecl.Cache.Locks.{Process, Grant, sma_lock, sma_unlock}
use immutable_cache_pecl.Sma.Words.{sub64, block_size, header_size}
use immutable_cache_pecl.Sma.Blocks.{Blocks, Segment, first, start, last_of}
use immutable_cache_pecl.Sma.Distinct.{has, has-append}
use immutable_cache_pecl.Sma.Links.{Linked, front_has}
use immutable_cache_pecl.Sma.Tiles.{Cell, end_of, end_of-le}
use immutable_cache_pecl.Sma.Invariant.{IsSegment, frees_range}
use immutable_cache_pecl.Sma.Heap.{Sma}
pub mod Lists
pub mod Sums

-- `immutable_cache_sma_link_t`, without its link
pub record Link : Type 0 where
  pub size : ℕ
  pub offset : ℕ

-- `immutable_cache_sma_info_t`
pub record Info : Type 0 where
  pub num_seg : ℕ
  pub seg_size : ℕ
  pub list : List (List Link)

abbrev pub link_of : Blocks → ℕ → Link
link_of b o = record { size = b.size o; offset = o }

-- The loop over the blocks of a segment, from `prv` on; `none` means that the fuel ran out.
unfoldable pub links : ℕ → Blocks → ℕ → Option (List Link)
links zero b prv = none
links (suc fuel) b prv =
    let cur = b.fnext prv in
    let rest = links fuel b cur in
    if b.fnext cur == 0
    then some []
    else (elim rest [ none ↦ none | some ls ↦ some (link_of b cur ∷ ls) ])

-- The loop over the segments. The answer to the lock call is not looked at.
unfoldable pub links_of : ℕ → Grant → List Segment → Process → Option (List (List Link) × Process)
unfolding links sma_lock sma_unlock
links_of fuel grant [] p = some ([], p)
links_of fuel grant (s ∷ ss) p =
    let p₁ = (sma_lock grant p).1 in
    let rest = links_of fuel grant ss (sma_unlock p₁) in
    elim (links fuel s.blocks first) [
      | none ↦ none
      | some ls ↦ elim rest [ none ↦ none | some (lss, p') ↦ some (ls ∷ lss, p') ]
    ]

abbrev pub nothing : {A : Type 0} → List A → List (List Link)
nothing [] = []
nothing (x ∷ xs) = [] ∷ nothing xs

-- `initialized` is the field of that name; the inner `none` stands for NULL.
unfoldable pub sma_info : ℕ → Grant → Bool → Bool → Sma → Process → Option (Option Info × Process)
unfolding links_of
sma_info fuel grant initialized limited sma p =
    let seg_size = sub64 sma.size (header_size + block_size + block_size) in
    let num_seg = length sma.segs in
    if initialized
    then if limited
      then some
          (some (record { num_seg = num_seg; seg_size = seg_size; list = nothing sma.segs }), p)
      else elim (links_of fuel grant sma.segs p) [
        | none ↦ none
        | some (lss, p') ↦
            some (some (record { num_seg = num_seg; seg_size = seg_size; list = lss }), p')
      ]
    else some (none, p)
