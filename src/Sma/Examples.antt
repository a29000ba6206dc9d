-- ===== src/Sma/Examples.antt =====
-- Tests of the allocator: a fresh segment of 2000 bytes.
use immutable_cache_pecl.Prelude.{
  ◌*◌, false, List, ℕ, inr, ◌+◌, ◌≡◌, refl, true, [], ◌∷◌, arith, none, some,
}
use immutable_cache_pecl.Sma.Blocks.{Blocks, Segment, start}
use immutable_cache_pecl.Sma.Search.{find_block}
use immutable_cache_pecl.Sma.Allocate.{allocate}
use immutable_cache_pecl.Sma.Init.{init_segment, init_segment-IsSegment}
use immutable_cache_pecl.Sma.Tiles.{cell}
use immutable_cache_pecl.Sma.Invariant.{IsSegment}
use immutable_cache_pecl.Sma.Find.{First, find_block-First}
use immutable_cache_pecl.Cache.Locks.{Process, Grant, sma_lock}
use immutable_cache_pecl.Sma.Heap.{Sma, Result, no_segment, malloc_ex, sma_free}
use immutable_cache_pecl.Sma.Heap.Total.{IsFine, Kept, malloc_ex-Kept}
use immutable_cache_pecl.Prelude.Int.{pos}
use immutable_cache_pecl.Sma.Allocate.{finish, split_block}
use immutable_cache_pecl.Sma.Split.{split_block-IsSegment}
use immutable_cache_pecl.Sma.Deallocate.{deallocate}
use immutable_cache_pecl.Sma.Freed.{deallocate-IsSegment}
use immutable_cache_pecl.Sma.Reuse.{returned, IsUndone, deallocate-allocate}
use immutable_cache_pecl.Sma.Heap.Free.{IsIn, Freed, sma_free-Freed}
use immutable_cache_pecl.Functions.SmaInfo.{
  SmaInfo, AddsUp, sma_info_function, sma_info_function-AddsUp,
}
use immutable_cache_pecl.Sma.Setup.{
  State, sma_init, on_update_shm_segments, on_update_shm_size, IsStarted, configured-IsStarted,
}
use immutable_cache_pecl.Sma.Outcome.{Outcome, allocate-Outcome}

abbrev memory : Blocks
memory = record { size = λ a. 3; prev_size = λ a. 4; fnext = λ a. 5; fprev = λ a. 6 }

abbrev segment : Segment
segment = init_segment memory 2000

segment-IsSegment : IsSegment segment (cell 800 true ∷ []) (start ∷ [])
segment-IsSegment = init_segment-IsSegment memory 2000 (omega arith) (omega arith)

-- One payload of 100 bytes fits, one of 800 does not.
allocate_small :
    (elim (allocate 3 segment 100 40) [ none ↦ none | some r ↦ r.0 ]) ≡ some (1168, 104)
unfolding allocate init_segment
allocate_small = refl

allocate_large : (elim (allocate 3 segment 800 40) [ none ↦ none | some r ↦ r.0 ]) ≡ none
unfolding allocate init_segment
allocate_large = refl

init_segment-IsSegment_example :
    IsSegment (init_segment memory 2000) (cell 800 true ∷ []) (start ∷ [])
init_segment-IsSegment_example = init_segment-IsSegment memory 2000 (omega arith) (omega arith)

allocate-Outcome_example :
    Outcome segment 100 (cell 800 true ∷ []) (start ∷ []) (allocate 3 segment 100 40)
allocate-Outcome_example =
    allocate-Outcome 3 segment 100 40 (cell 800 true ∷ []) (start ∷ []) segment-IsSegment
      (omega arith) (omega arith) (omega arith)

find_block-First_example : First segment.blocks 136 (start ∷ []) (find_block 3 segment.blocks 136)
find_block-First_example =
    find_block-First segment (cell 800 true ∷ []) (start ∷ []) 136 3 segment-IsSegment (omega arith)
      (omega arith)

-- A heap of two fresh segments.
abbrev heap : Sma
heap = record {
  size = 2000;
  last = 0;
  segs = segment ∷ segment ∷ [];
  shmaddr = λ i. 4096 * (i + 1);
}

abbrev process : Process
process = record { entry_level = 0; protect_memory = true; writable = false; held = [] }

abbrev always : Grant
always l held = true

granted : (sma_lock always process).0 ≡ true
unfolding sma_lock
granted = refl

two_megabytes : on_update_shm_size (pos 2) ≡ some 2097152
unfolding on_update_shm_size
two_megabytes = refl

segment-IsFine : IsFine 3 segment
segment-IsFine = (cell 800 true ∷ [], start ∷ [], segment-IsSegment, omega arith)

malloc_ex-Kept_example :
    (r : Result) × (malloc_ex 3 always heap 100 process ≡ some r) × Kept 3 2 process r
malloc_ex-Kept_example =
    malloc_ex-Kept 3 always 100 (omega arith) process (λ h. refl) heap
      (segment-IsFine, (segment-IsFine, tt)) (omega arith)

-- The first segment with a block of 136 bytes in use.
abbrev used : Segment
used = finish segment (split_block segment.blocks start 136) start

used-IsSegment : IsSegment used (cell 136 false ∷ cell 664 true ∷ []) ((start + 136) ∷ [])
used-IsSegment =
    split_block-IsSegment segment [] 800 [] [] [] segment-IsSegment 136 (omega arith) (omega arith)

deallocate-IsSegment_example :
    (list : List ℕ) × (seg : Segment) × (deallocate used (start + 32) ≡ (136, seg))
    × IsSegment seg (cell 800 true ∷ []) list
deallocate-IsSegment_example =
    deallocate-IsSegment used [] 136 (cell 664 true ∷ []) ((start + 136) ∷ []) used-IsSegment

-- what the allocation of 100 bytes leaves
abbrev after : Segment
after = elim (allocate 3 segment 100 40) [ none ↦ segment | some r ↦ r.1 ]

allocate-after : allocate 3 segment 100 40 ≡ returned 1168 104 after
unfolding allocate init_segment
allocate-after = refl

deallocate-allocate_example : IsUndone segment (cell 800 true ∷ []) after 1168 104
deallocate-allocate_example =
    deallocate-allocate 3 segment after 100 40 1168 104 (cell 800 true ∷ []) (start ∷ [])
      segment-IsSegment (omega arith) (omega arith) (omega arith) allocate-after

abbrev used_heap : Sma
used_heap = record heap { segs = segment ∷ used ∷ [] }

used_heap-IsIn : IsIn used_heap 1 (start + 32) 9360
used_heap-IsIn = record {
  at = refl;
  within = omega arith;
  exists = omega arith;
  before = λ j h. inr (omega arith);
  nonzero = omega arith;
}

sma_free-Freed_example :
    Freed always process used_heap 1 [] 136
      (cell 664 true ∷ [])
      (sma_free always used_heap 9360 process)
sma_free-Freed_example =
    sma_free-Freed always process used_heap 1 9360 [] 136 (cell 664 true ∷ []) ((start + 136) ∷ [])
      (λ h. refl) used-IsSegment used_heap-IsIn

sma_info_function-AddsUp_example :
    (r : SmaInfo) × (sma_info_function 3 always true false heap process ≡ some (some r, process))
    × AddsUp heap r
sma_info_function-AddsUp_example =
    sma_info_function-AddsUp 3 always process heap granted (λ h. refl)
      (segment-IsFine, (segment-IsFine, tt))

abbrev unset : State
unset = record { initialized = false; sma = record heap { segs = [] }; lock_segment = no_segment }

-- `immutable_cache.shm_size = 2`, which is taken for two megabytes
configured-IsStarted_example :
    IsStarted 1
      (sma_init (λ i. memory) (λ i. 4096) unset (on_update_shm_segments (pos 3)) 2097152 none)
configured-IsStarted_example =
    configured-IsStarted (λ i. memory) (λ i. 4096) unset (pos 3) (pos 2) 2097152 none (omega arith)
      two_megabytes refl refl
