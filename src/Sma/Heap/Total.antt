-- ===== src/Sma/Heap/Total.antt =====
-- `immutable_cache_sma_malloc_ex` always comes to an end, keeps the invariant of every segment, and
-- gives back the lock.
use immutable_cache_pecl.Prelude.{
  ℕ, zero, suc, ◌+◌, ◌^◌, ◌<◌, ◌≤◌, ◌≡◌, refl, ap, ◌∙◌, Bool, true, false, List, [], ◌∷◌, Option,
  none, some, get_or, set, length, length-append, length-set, arith, ◌==◌, Bool-cases, Option-cases,
  inl, inr,
}
use immutable_cache_pecl.Cache.Locks.{Process, Grant, sma_lock, sma_unlock}
use immutable_cache_pecl.Cache.Balance.{IsQuiet}
use immutable_cache_pecl.Sma.Words.{min_block_size}
use immutable_cache_pecl.Sma.Blocks.{Segment, start}
use immutable_cache_pecl.Sma.Allocate.{allocate, real_size}
use immutable_cache_pecl.Sma.Tiles.{Cell, end_of}
use immutable_cache_pecl.Sma.Invariant.{IsSegment}
use immutable_cache_pecl.Sma.Outcome.{refused, whole, split, allocate-Outcome}
use immutable_cache_pecl.Sma.Heap.{Sma, Result, no_segment, attempt, other_segments, malloc_ex}

-- the invariant, and that the fuel is enough for the free list
abbrev pub IsFine : ℕ → Segment → Type 0
IsFine fuel seg =
    (cells : List Cell) × (list : List ℕ) × IsSegment seg cells list × (length list + 2 ≤ fuel)

abbrev pub AllFine : ℕ → List Segment → Type 0
AllFine fuel [] = Unit {0}
AllFine fuel (s ∷ ss) = IsFine fuel s × AllFine fuel ss

AllFine-get :
    (fuel : ℕ) (ss : List Segment) (i : ℕ)
    → AllFine fuel ss
    → i < length ss
    → IsFine fuel (get_or ss i no_segment)
AllFine-get fuel [] i f l = absurd (omega arith)
AllFine-get fuel (s ∷ ss) zero f l = f.0
AllFine-get fuel (s ∷ ss) (suc i) f l = AllFine-get fuel ss i f.1 (omega arith)

AllFine-set :
    (fuel : ℕ) (ss : List Segment) (i : ℕ) (s : Segment)
    → AllFine fuel ss
    → IsFine fuel s
    → AllFine fuel (set ss i s)
AllFine-set fuel [] i x f g = tt
AllFine-set fuel (s ∷ ss) zero x f g = (g, f.1)
AllFine-set fuel (s ∷ ss) (suc i) x f g = (f.0, AllFine-set fuel ss i x f.1 g)

-- one segment
allocate-IsFine :
    (fuel : ℕ) (seg : Segment) (n : ℕ)
    → n < 2 ^ 63
    → IsFine fuel seg
    → (off : Option (ℕ × ℕ)) × (seg' : Segment) × (allocate fuel seg n min_block_size
        ≡ some (off, seg'))
      × IsFine fuel seg'
allocate-IsFine fuel seg n small (cells, list, inv, enough) =
    elim (allocate-Outcome fuel seg n min_block_size cells list inv small (omega arith) enough) [
      | refused e each ↦ (none, seg, e, (cells, list, inv, enough))
      | whole at seg' room e inv' ↦ (
        _,
        seg',
        e,
        (
          _,
          _,
          inv',
          omega (
            arith,
            enough,
            ap (λ (l : List ℕ). length l) at.list_eq,
            length-append at.front (end_of start at.left ∷ at.back),
            length-append at.front at.back,
          ),
        ),
      )
      | split at seg' room more e inv' ↦ (
        _,
        seg',
        e,
        (
          _,
          _,
          inv',
          omega (
            arith,
            enough,
            ap (λ (l : List ℕ). length l) at.list_eq,
            length-append at.front (end_of start at.left ∷ at.back),
            length-append at.front ((end_of start at.left + real_size n) ∷ at.back),
          ),
        ),
      )
    ]

pub sma_unlock-sma_lock :
    (grant : Grant) (p : Process)
    → IsQuiet p
    → ((sma_lock grant p).0 ≡ true → sma_unlock (sma_lock grant p).1 ≡ p)
      × ((sma_lock grant p).0 ≡ false → (sma_lock grant p).1 ≡ p)
unfolding sma_lock sma_unlock
sma_unlock-sma_lock grant p quiet = (ground (arith, quiet), ground (arith, quiet))

-- What is kept: the invariants, the number of segments, and the process.
abbrev pub Kept : ℕ → ℕ → Process → Result → Type 0
Kept fuel count p r = AllFine fuel r.1.segs × (length r.1.segs ≡ count) × (r.2 ≡ p)

module _ (fuel : ℕ) (grant : Grant) (n : ℕ) (small : n < 2 ^ 63) (p : Process)
    (quiet : IsQuiet p) where
  attempt-Kept :
      (sma : Sma) (i : ℕ)
      → AllFine fuel sma.segs
      → i < length sma.segs
      → (locked : Bool) × (r : Result) × (attempt fuel grant sma i n p ≡ some (locked, r))
        × Kept fuel (length sma.segs) p r
  unfolding attempt
  attempt-Kept sma i fine l =
      let balance = sma_unlock-sma_lock grant p quiet in
      let (off, seg, e, fine') =
        allocate-IsFine fuel (get_or sma.segs i no_segment) n small
          (AllFine-get fuel sma.segs i fine l) in
      let kept = AllFine-set fuel sma.segs i seg fine fine' in
      let count = length-set sma.segs i seg in
      let p₁ = (sma_lock grant p).1 in
      let sma' : Sma = record sma { segs = set sma.segs i seg } in
      elim (Bool-cases (sma_lock grant p).0) [
        | inr not_granted ↦
            (false, (none, sma, p₁), rw (not_granted, attempt), (fine, refl, balance.1 not_granted))
        | inl granted ↦ elim (Option-cases off) [
          | inl full ↦ (
            true,
            (none, sma', sma_unlock p₁),
            rw (granted, attempt, e, full),
            (kept, count, balance.0 granted),
          )
          | inr (place, there) ↦ (
            true,
            (some (sma.shmaddr i + place.0, place.1), record sma' { last = i }, sma_unlock p₁),
            rw (granted, attempt, e, there),
            (kept, count, balance.0 granted),
          )
        ]
      ]

  other_segments-Kept :
      (k i last count : ℕ) (sma : Sma)
      → AllFine fuel sma.segs
      → length sma.segs ≡ count
      → i + k ≤ count
      → (r : Result) × (other_segments fuel grant k i last sma n p ≡ some r) × Kept fuel count p r
  unfolding other_segments
  other_segments-Kept zero i last count sma fine same l = ((none, sma, p), refl, (fine, same, refl))
  other_segments-Kept (suc k) i last count sma fine same l = elim (Bool-cases (i == last)) [
    | inl skip ↦
        let (r, e, kept) = other_segments-Kept k (i + 1) last count sma fine same (omega arith) in
        (r, rw (skip, e), kept)
    | inr try ↦
        let (locked, (off, sma', p'), e, kept) = attempt-Kept sma i fine (omega arith) in
        let kept' : Kept fuel count p (off, sma', p') = (kept.0, kept.1 ∙ same, kept.2) in
        elim (Bool-cases locked) [
          | inr not_granted ↦ ((none, sma', p'), rw (other_segments, try, e, not_granted), kept')
          | inl granted ↦ elim (Option-cases off) [
            | inr (a, there) ↦
                ((some a, sma', p'), rw (other_segments, try, e, granted, there), kept')
            | inl full ↦
                let (r, e', more) =
                  other_segments-Kept k (i + 1) last count sma' kept'.0 kept'.1 (omega arith) in
                (
                  r,
                  rw (other_segments, try, e, granted, full)
                      (ap (λ q. other_segments fuel grant k (i + 1) last sma' n q) kept'.2 ∙ e'),
                  more,
                )
          ]
        ]
  ]

  -- If every segment satisfies the invariant and the fuel is enough for its free list, the size
  -- is below 2^63, the process cannot write to protected memory, and the segment to try first
  -- exists, then an allocation over the segments returns a result, whatever the system answers to
  -- its lock calls; every segment again satisfies the invariant with enough fuel, there are as
  -- many as before, and the process has given back the lock.
  pub malloc_ex-Kept :
      (sma : Sma)
      → AllFine fuel sma.segs
      → sma.last < length sma.segs
      → (r : Result) × (malloc_ex fuel grant sma n p ≡ some r) × Kept fuel (length sma.segs) p r
  unfolding malloc_ex
  malloc_ex-Kept sma fine l =
      let (locked, (off, sma', p'), e, kept) = attempt-Kept sma sma.last fine l in
      elim (Bool-cases locked) [
        | inr not_granted ↦ ((none, sma', p'), rw (malloc_ex, e, not_granted), kept)
        | inl granted ↦ elim (Option-cases off) [
          | inr (a, there) ↦ ((some a, sma', p'), rw (malloc_ex, e, granted, there), kept)
          | inl full ↦
              let count = length sma.segs in
              let (r, e', more) =
                other_segments-Kept count 0 sma.last count sma' kept.0 kept.1 (omega arith) in
              (r, rw (malloc_ex, e, granted, full, kept.1, kept.2) e', more)
        ]
      ]
