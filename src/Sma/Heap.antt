-- ===== src/Sma/Heap.antt =====
-- The allocator over its segments: `immutable_cache_sma_malloc_ex`, and what it tells of its memory.
-- All segments share the lock of the last one.
use immutable_cache_pecl.Prelude.{
  ℕ, zero, suc, ◌+◌, ◌-◌, Bool, true, false, ◌&&◌, ◌||◌, List, [], ◌∷◌, Option, none, some, get_or,
  set, length, ltb, leb, ◌==◌, if◌then◌else◌,
}
use immutable_cache_pecl.Cache.Locks.{Process, Grant, sma_lock, sma_unlock}
use immutable_cache_pecl.Sma.Words.{add64, min_block_size}
use immutable_cache_pecl.Sma.Blocks.{Blocks, Segment}
use immutable_cache_pecl.Sma.Allocate.{allocate}
use immutable_cache_pecl.Sma.Deallocate.{deallocate}
pub mod Total
pub mod Free

-- `immutable_cache_sma_t`: the segments but the one that has the locks, and their addresses. The
-- number of segments is the length of the list.
pub record Sma : Type 0 where
  pub size : ℕ
  pub last : ℕ
  pub segs : List Segment
  pub shmaddr : ℕ → ℕ

-- what stands where there is no segment; it has no memory
abbrev pub no_segment : Segment
no_segment = record {
  segsize = 0;
  avail = 0;
  blocks = record { size = λ o. 0; prev_size = λ o. 0; fnext = λ o. 0; fprev = λ o. 0 };
}

-- What a call of `immutable_cache_sma_malloc_ex` returns: the address and the size of the payload.
abbrev pub Result : Type 0
Result = Option (ℕ × ℕ) × Sma × Process

-- `SMA_LOCK`, `sma_allocate`, `SMA_UNLOCK`; the first part says whether the lock was granted. The
-- outer `none` means that the fuel ran out.
unfoldable pub attempt : ℕ → Grant → Sma → ℕ → ℕ → Process → Option (Bool × Result)
unfolding allocate sma_lock sma_unlock
attempt fuel grant sma i n p =
    let (locked, p₁) = sma_lock grant p in
    if locked
    then (elim (allocate fuel (get_or sma.segs i no_segment) n min_block_size) [
      | none ↦ none
      | some (off, seg) ↦
          let sma' = record sma { segs = set sma.segs i seg } in
          elim off [
            | none ↦ some (true, (none, sma', sma_unlock p₁))
            | some (offset, allocated) ↦ some (
              true,
              (some (sma.shmaddr i + offset, allocated), record sma' { last = i }, sma_unlock p₁),
            )
          ]
    ])
    else some (false, (none, sma, p₁))

-- The loop over `k` segments from `i` on, without the one that was tried first.
unfoldable pub other_segments : ℕ → Grant → ℕ → ℕ → ℕ → Sma → ℕ → Process → Option Result
unfolding attempt
other_segments fuel grant zero i last sma n p = some (none, sma, p)
other_segments fuel grant (suc k) i last sma n p =
    if i == last
    then other_segments fuel grant k (i + 1) last sma n p
    else elim (attempt fuel grant sma i n p) [
      | none ↦ none
      | some (locked, (off, sma', p')) ↦
          if locked
          then elim off [
            | some a ↦ some (some a, sma', p')
            | none ↦ other_segments fuel grant k (i + 1) last sma' n p'
          ]
          else some (none, sma', p')
    ]

unfoldable pub malloc_ex : ℕ → Grant → Sma → ℕ → Process → Option Result
unfolding attempt other_segments
malloc_ex fuel grant sma n p = elim (attempt fuel grant sma sma.last n p) [
  | none ↦ none
  | some (locked, (off, sma', p')) ↦
      if locked
      then elim off [
        | some a ↦ some (some a, sma', p')
        | none ↦ other_segments fuel grant (length sma'.segs) 0 sma.last sma' n p'
      ]
      else some (none, sma', p')
]

-- The loop of `immutable_cache_sma_free` over `k` segments from `i` on. Behind the last one there is
-- only an error message.
unfoldable pub free_in : Grant → ℕ → ℕ → Sma → ℕ → Process → Sma × Process
unfolding deallocate sma_lock sma_unlock
free_in grant zero i sma ptr p = (sma, p)
free_in grant (suc k) i sma ptr p =
    let offset = ptr - sma.shmaddr i in
    let rest = free_in grant k (i + 1) sma ptr p in
    if leb (sma.shmaddr i) ptr && ltb offset sma.size
    then (let (locked, p₁) = sma_lock grant p in
        if locked
        then (let (freed, seg) = deallocate (get_or sma.segs i no_segment) offset in
            (record sma { segs = set sma.segs i seg }, sma_unlock p₁))
        else (sma, p₁))
    else rest

unfoldable pub sma_free : Grant → Sma → ℕ → Process → Sma × Process
unfolding free_in
sma_free grant sma ptr p =
    if ptr == 0 then (sma, p) else free_in grant (length sma.segs) 0 sma ptr p

-- `immutable_cache_sma_get_avail_mem`
unfoldable pub get_avail_mem : List Segment → ℕ
get_avail_mem [] = 0
get_avail_mem (s ∷ ss) = add64 s.avail (get_avail_mem ss)

-- `immutable_cache_sma_get_avail_size`
unfoldable pub get_avail_size : List Segment → ℕ → Bool
get_avail_size [] size = false
get_avail_size (s ∷ ss) size = ltb size s.avail || get_avail_size ss size

-- `immutable_cache_sma_contains_pointer`, from segment `i` on
unfoldable pub contains_pointer : (ℕ → ℕ) → ℕ → List Segment → ℕ → Bool
contains_pointer shmaddr i [] ptr = false
contains_pointer shmaddr i (s ∷ ss) ptr =
    (leb (shmaddr i) ptr && ltb ptr (shmaddr i + s.segsize))
    || contains_pointer shmaddr (i + 1) ss ptr
