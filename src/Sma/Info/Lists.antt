-- ===== src/Sma/Info/Lists.antt =====
-- What `immutable_cache_sma_info` tells is the free list.
use immutable_cache_pecl.Prelude.{
  ℕ, zero, suc, ◌+◌, ◌<◌, ◌≤◌, ◌≡◌, sym, refl, ap, ◌∙◌, true, false, List, [], ◌∷◌, ◌++◌, some,
  length, arith, ◌==◌, inl, Bool-cases, inr,
}
use immutable_cache_pecl.Cache.Locks.{Process, Grant, sma_lock, sma_unlock}
use immutable_cache_pecl.Cache.Balance.{IsQuiet}
use immutable_cache_pecl.Sma.Words.{sub64, block_size, header_size}
use immutable_cache_pecl.Sma.Blocks.{Blocks, Segment, first, start, last_of}
use immutable_cache_pecl.Sma.Distinct.{has, has-append}
use immutable_cache_pecl.Sma.Links.{Linked, front_has}
use immutable_cache_pecl.Sma.Tiles.{Cell, end_of-le}
use immutable_cache_pecl.Sma.Invariant.{IsSegment, frees_range}
use immutable_cache_pecl.Sma.Heap.{Sma}
use immutable_cache_pecl.Sma.Heap.Total.{AllFine, sma_unlock-sma_lock}
use immutable_cache_pecl.Sma.Info.{Link, Info, links, links_of, sma_info}

-- the description of the blocks at the given offsets
abbrev pub describe : Blocks → List ℕ → List Link
describe b [] = []
describe b (o ∷ os) = record { size = b.size o; offset = o } ∷ describe b os

links_lem :
    (fuel : ℕ) (b : Blocks) (p : ℕ) (xs : List ℕ) (q : ℕ)
    → Linked b.fnext b.fprev p xs q
    → b.fnext q ≡ 0
    → has 0 (xs ++ q ∷ []) ≡ false
    → length xs < fuel
    → links fuel b p ≡ some (describe b xs)
unfolding links
links_lem zero b p xs q l end out h = absurd (omega arith)
links_lem (suc fuel) b p [] q l end out h = rw (l.0, end)
links_lem (suc fuel) b p (x ∷ xs) q l end out h =
    let ahead = front_has b.fnext b.fprev x xs q l.2 in
    let on : (b.fnext x == 0) ≡ false =
      ground (arith, ap (λ (n : ℕ). has n (xs ++ q ∷ [])) {x = b.fnext x} {y = 0}) in
    rw (l.0, on, links_lem fuel b x xs q l.2 end (ground arith) (omega arith), l.0)

-- What is told of a segment: the sizes and offsets on its free list, which has each of the free blocks
-- once.
pub record Tells (seg : Segment) (ls : List Link) : Type 0 where
  pub cells : List Cell
  pub list : List ℕ
  pub inv : IsSegment seg cells list
  pub told : ls ≡ describe seg.blocks list

abbrev pub AllTell : List Segment → List (List Link) → Type 0
AllTell [] [] = Unit {0}
AllTell (s ∷ ss) (l ∷ ls) = Tells s l × AllTell ss ls
AllTell _ _ = ⊥

links-Tells :
    (fuel : ℕ) (seg : Segment) (cells : List Cell) (list : List ℕ)
    → IsSegment seg cells list
    → length list + 2 ≤ fuel
    → (ls : List Link) × (links fuel seg.blocks first ≡ some ls) × Tells seg ls
links-Tells fuel seg cells list inv enough =
    let b = seg.blocks in
    let last = last_of seg.segsize in
    let out : has 0 (list ++ last ∷ []) ≡ false = elim (Bool-cases (has 0 list)) [
      | inl there ↦ absurd (
          omega (
            arith,
            frees_range b.size b.prev_size b.fnext start 0 cells 0 inv.tiles
                (sym (inv.members 0) ∙ there),
          ))
      | inr off ↦ ground (arith, has-append 0 list (last ∷ []), inv.ends, end_of-le start cells)
    ] in
    (
      describe b list,
      links_lem fuel b first list last inv.linked inv.tail_next out (omega arith),
      record { cells = cells; list = list; inv = inv; told = refl },
    )

links_of-AllTell :
    (fuel : ℕ) (grant : Grant) (p : Process) (ss : List Segment)
    → (sma_lock grant p).0 ≡ true
    → IsQuiet p
    → AllFine fuel ss
    → (lss : List (List Link)) × (links_of fuel grant ss p ≡ some (lss, p)) × AllTell ss lss
unfolding links_of
links_of-AllTell fuel grant p [] granted quiet fine = ([], refl, tt)
links_of-AllTell fuel grant p (s ∷ ss) granted quiet ((cells, list, inv, enough), fine) =
    let (ls, e, told) = links-Tells fuel s cells list inv enough in
    let (lss, f, all) = links_of-AllTell fuel grant p ss granted quiet fine in
    let balance : sma_unlock (sma_lock grant p).1 ≡ p =
      (sma_unlock-sma_lock grant p quiet).0 granted in
    (ls ∷ lss, rw (e, links_of, balance, f), (told, all))

-- If the allocator is initialized, the lock is granted to a process that cannot write to
-- protected memory, and every segment satisfies the invariant with enough fuel for its free list,
-- then the unlimited information is returned, gives the number of segments, and lists for each
-- segment the size and offset of each block on its free list, in its order, and the process has
-- given back the locks.
pub sma_info-AllTell :
    (fuel : ℕ) (grant : Grant) (p : Process) (sma : Sma)
    → (sma_lock grant p).0 ≡ true
    → IsQuiet p
    → AllFine fuel sma.segs
    → (info : Info) × (sma_info fuel grant true false sma p ≡ some (some info, p))
      × (info.num_seg ≡ length sma.segs)
      × AllTell sma.segs info.list
unfolding sma_info
sma_info-AllTell fuel grant p sma granted quiet fine =
    let (lss, e, all) = links_of-AllTell fuel grant p sma.segs granted quiet fine in
    (
      record {
        num_seg = length sma.segs;
        seg_size = sub64 sma.size (header_size + block_size + block_size);
        list = lss;
      },
      rw e,
      refl,
      all,
    )
