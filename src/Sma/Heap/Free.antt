-- ===== src/Sma/Heap/Free.antt =====
-- `immutable_cache_sma_free` over the segments: it finds the one that the address is in.
use immutable_cache_pecl.Prelude.{
  ℕ, zero, suc, ◌+◌, ◌-◌, ◌<◌, ◌≤◌, ◌≡◌, ◌⊎◌, inl, inr, ap, ◌∙◌, true, false, ◌&&◌, List, ◌∷◌, ◌++◌,
  get_or, set, length, arith, ltb, leb, ◌==◌, Bool-cases, if◌then◌else◌,
}
use immutable_cache_pecl.Cache.Locks.{Process, Grant, sma_lock, sma_unlock}
use immutable_cache_pecl.Cache.Balance.{IsQuiet}
use immutable_cache_pecl.Sma.Words.{block_size}
use immutable_cache_pecl.Sma.Blocks.{Segment, start}
use immutable_cache_pecl.Sma.Deallocate.{deallocate}
use immutable_cache_pecl.Sma.Tiles.{Cell, cell, end_of}
use immutable_cache_pecl.Sma.Invariant.{IsSegment}
use immutable_cache_pecl.Sma.Coalesce.{coalesce}
use immutable_cache_pecl.Sma.Freed.{deallocate-IsSegment}
use immutable_cache_pecl.Sma.Heap.{Sma, no_segment, free_in, sma_free}
use immutable_cache_pecl.Sma.Heap.Total.{sma_unlock-sma_lock}

-- the address lies in segment `i`, at `offset`, and in none before it
pub record IsIn (sma : Sma) (i offset ptr : ℕ) : Type 0 where
  pub at : ptr ≡ sma.shmaddr i + offset
  pub within : offset < sma.size
  pub exists : i < length sma.segs
  pub before : (j : ℕ) → j < i → (ptr < sma.shmaddr j) ⊎ (sma.shmaddr j + sma.size ≤ ptr)
  pub nonzero : 0 < ptr

module _ (grant : Grant) (p : Process) (sma : Sma) (i offset ptr : ℕ)
    (here : IsIn sma i offset ptr) where
  -- what happens once the segment is found
  abbrev freed : Sma × Process
  freed =
      let (locked, p₁) = sma_lock grant p in
      if locked
      then (
        record sma { segs = set sma.segs i (deallocate (get_or sma.segs i no_segment) offset).1 },
        sma_unlock p₁,
      )
      else (sma, p₁)

  finds : (k j : ℕ) → j ≤ i → i < j + k → free_in grant k j sma ptr p ≡ freed
  unfolding free_in
  finds zero j le lt = absurd (omega arith)
  finds (suc k) j le lt = elim (Bool-cases (j == i)) [
    | inl same ↦
        let e : j ≡ i = ground arith in
        let off : ptr - sma.shmaddr i ≡ offset = omega (arith, here.at) in
        let low : leb (sma.shmaddr i) ptr ≡ true = ground (arith, here.at) in
        let high : ltb offset sma.size ≡ true = ground (arith, here.within) in
        rw (e, off, low, high)
    | inr other ↦
        let out : (leb (sma.shmaddr j) ptr && ltb (ptr - sma.shmaddr j) sma.size) ≡ false =
          ground (arith, here.before j) in
        rw out (finds k (j + 1) (ground arith) (ground arith))
  ]

sma_free_steps :
    (grant : Grant) (p : Process) (sma : Sma) (ptr : ℕ)
    → 0 < ptr
    → sma_free grant sma ptr p ≡ free_in grant (length sma.segs) 0 sma ptr p
unfolding sma_free
sma_free_steps grant p sma ptr pos = let nonzero : (ptr == 0) ≡ false = ground arith in rw nonzero

-- What freeing the block of size `s` behind `ls` in segment `i` may do.
abbrev pub Freed : Grant → Process → Sma → ℕ → List Cell → ℕ → List Cell → Sma × Process → Type 0
Freed grant p sma i ls s rs result =
    (((sma_lock grant p).0 ≡ false) × (result ≡ (sma, p)))
    ⊎ (((sma_lock grant p).0 ≡ true)
        × ((seg : Segment) × (list : List ℕ) × (result
              ≡ (record sma { segs = set sma.segs i seg }, p))
            × IsSegment seg (coalesce (ls ++ cell s true ∷ rs)) list))

-- For a process that cannot write to protected memory and an address that lies in a segment, in
-- none before it, and is the payload of a block in use there: freeing it does nothing if the lock
-- is refused, and otherwise changes only that segment, which then satisfies the invariant with
-- the block free and one with its free neighbours, and the process has given back the lock.
pub sma_free-Freed :
    (grant : Grant) (p : Process) (sma : Sma) (i ptr : ℕ) (ls : List Cell) (s : ℕ) (rs : List Cell)
    (list : List ℕ)
    → IsQuiet p
    → IsSegment (get_or sma.segs i no_segment) (ls ++ cell s false ∷ rs) list
    → IsIn sma i (end_of start ls + block_size) ptr
    → Freed grant p sma i ls s rs (sma_free grant sma ptr p)
sma_free-Freed grant p sma i ptr ls s rs list quiet inv here =
    let offset = end_of start ls + block_size in
    let there = here.exists in
    let found =
      finds grant p sma i offset ptr here (length sma.segs) 0 (omega arith) (omega arith) in
    let steps = sma_free_steps grant p sma ptr here.nonzero in
    let balance = sma_unlock-sma_lock grant p quiet in
    let (list', seg, e, inv') =
      deallocate-IsSegment (get_or sma.segs i no_segment) ls s rs list inv in
    elim (Bool-cases (sma_lock grant p).0) [
      | inr refused ↦
          inl (refused, steps ∙ found ∙ rw refused (ap (λ q. (sma, q)) (balance.1 refused)))
      | inl granted ↦
          inr (granted, (seg, list', steps ∙ found ∙ rw (granted, e, balance.0 granted), inv'))
    ]
