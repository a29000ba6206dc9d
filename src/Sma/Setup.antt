-- ===== src/Sma/Setup.antt =====
-- `immutable_cache_sma_init` over all segments, on a system with `mmap`, and the settings that give it
-- the number and the size of the segments.
use mathlib.Core.Path.{subst}
use immutable_cache_pecl.Prelude.{
  ℕ, zero, suc, ◌+◌, ◌*◌, ◌^◌, ◌≤◌, ◌<◌, ◌≡◌, refl, ap, Bool, true, false, ◌||◌, ◌&&◌, List, [],
  ◌∷◌, Option, none, some, length, arith, ltb, ◌==◌, if◌then◌else◌, memcmp,
}
use immutable_cache_pecl.Prelude.Int.{ℤ, pos, negsuc, pos_part}
use immutable_cache_pecl.Sma.Words.{header_size}
use immutable_cache_pecl.Sma.Blocks.{Blocks, Segment}
use immutable_cache_pecl.Sma.Init.{init_segment, init_segment-IsSegment}
use immutable_cache_pecl.Sma.Heap.{Sma}
use immutable_cache_pecl.Sma.Heap.Total.{IsFine, AllFine}

abbrev pub default_numseg : ℕ
default_numseg = 1

abbrev pub default_segsize : ℕ
default_segsize = 30 * 1024 * 1024

-- the size of the segment that has the locks
abbrev pub lock_segment_size : ℕ
lock_segment_size = 65536

-- `/dev/zero`
abbrev pub dev_zero : List ℕ
dev_zero = 47 ∷ 100 ∷ 101 ∷ 118 ∷ 47 ∷ 122 ∷ 101 ∷ 114 ∷ 111 ∷ []

-- `!mask || !strlen(mask) || !strcmp(mask, "/dev/zero")`
abbrev pub is_anonymous : Option (List ℕ) → Bool
is_anonymous none = true
is_anonymous (some mask) =
    length mask == 0 || (length mask == length dev_zero && memcmp mask dev_zero (length dev_zero))

unfoldable pub number_of_segments : Option (List ℕ) → ℤ → ℕ
number_of_segments mask num =
    if is_anonymous mask then 1 else if ltb 0 (pos_part num) then pos_part num else default_numseg

-- The rounds `i` to `i + k - 1` of the loop; `memory i` is what the `i`-th mapping holds.
unfoldable pub init_segments : (ℕ → Blocks) → ℕ → ℕ → ℕ → List Segment
unfolding init_segment
init_segments memory segment_size zero i = []
init_segments memory segment_size (suc k) i =
    init_segment (memory i) segment_size ∷ init_segments memory segment_size k (i + 1)

-- `initialized`, the allocator, and the segment that has the locks. `address i` is where the `i`-th
-- segment is mapped.
pub record State : Type 0 where
  pub initialized : Bool
  pub sma : Sma
  pub lock_segment : Segment

unfoldable pub sma_init : (ℕ → Blocks) → (ℕ → ℕ) → State → ℤ → ℕ → Option (List ℕ) → State
unfolding number_of_segments init_segments
sma_init memory address st num size mask =
    let count = number_of_segments mask num in
    let segsize = if ltb 0 size then size else default_segsize in
    if st.initialized then st else record {
      initialized = true;
      sma = record st.sma {
        size = segsize;
        segs = init_segments memory segsize count 0;
        shmaddr = address;
      };
      lock_segment = init_segment (memory count) lock_segment_size;
    }

addresses : (ℕ → ℕ) → ℕ → ℕ → List ℕ
addresses address zero i = []
addresses address (suc k) i = address i ∷ addresses address k (i + 1)

-- `immutable_cache_sma_detach`: the addresses that are unmapped, the lock segment's too, and what the
-- process knows afterwards. The assertion that it was initialized is left to the caller.
unfoldable pub sma_detach : State → List ℕ × State
unfolding addresses
sma_detach st = (
  addresses st.sma.shmaddr (length st.sma.segs + 1) 0,
  record st { initialized = false; sma = record st.sma { segs = [] } },
)

-- `OnUpdateShmSegments` with `mmap`: the value is not looked at but for a warning.
unfoldable pub on_update_shm_segments : ℤ → ℤ
on_update_shm_segments new_value = pos 1

-- `OnUpdateShmSize`; `none` is FAILURE.
unfoldable pub on_update_shm_size : ℤ → Option ℕ
on_update_shm_size (negsuc n) = none
on_update_shm_size (pos s) =
    if s == 0 then none else if ltb s 1048576 then some (s * 1048576) else some s

-- the accepted sizes have room for the headers
on_update_shm_size_bounds :
    (s : ℤ) (size : ℕ)
    → pos_part s < 2 ^ 63
    → on_update_shm_size s ≡ some size
    → (header_size + 128 ≤ size) × (size < 2 ^ 63) × (1048576 ≤ size)
unfolding on_update_shm_size
on_update_shm_size_bounds (negsuc n) size word e = cc
on_update_shm_size_bounds (pos s) size word e = ground arith

init_segments-AllFine :
    (memory : ℕ → Blocks) (size k i : ℕ)
    → header_size + 128 ≤ size
    → size < 2 ^ 63
    → AllFine 3 (init_segments memory size k i) × (length (init_segments memory size k i) ≡ k)
unfolding init_segments
init_segments-AllFine memory size zero i room small = (tt, refl)
init_segments-AllFine memory size (suc k) i room small =
    let (fine, count) = init_segments-AllFine memory size k (i + 1) room small in
    (((_, _, init_segment-IsSegment (memory i) size room small, omega arith), fine), ap suc count)

-- All segments are as new, the one to try first exists, and there are `count`.
pub record IsStarted (count : ℕ) (st : State) : Type 0 where
  pub fine : AllFine 3 st.sma.segs
  pub lock_fine : IsFine 3 st.lock_segment
  pub number : length st.sma.segs ≡ count
  pub exists : st.sma.last < length st.sma.segs
  pub set : st.initialized ≡ true

sma_init-IsStarted :
    (memory : ℕ → Blocks) (address : ℕ → ℕ) (st : State) (num : ℤ) (size : ℕ)
    (mask : Option (List ℕ))
    → st.initialized ≡ false
    → st.sma.last ≡ 0
    → header_size + 128 ≤ size
    → size < 2 ^ 63
    → IsStarted (number_of_segments mask num) (sma_init memory address st num size mask)
unfolding sma_init
sma_init-IsStarted memory address st num size mask new last0 room small =
    let count = number_of_segments mask num in
    let (fine, same) = init_segments-AllFine memory size count 0 room small in
    let some_segment : 0 < count = ground arith in
    let given : ltb 0 size ≡ true = ground arith in
    rw (new, given)
      (record {
        fine = fine;
        lock_fine = (
          _,
          _,
          init_segment-IsSegment (memory count) lock_segment_size (omega arith) (omega arith),
          omega arith,
        );
        number = same;
        exists = omega (arith, last0, same, some_segment);
        set = refl;
      })

-- If a signed 64-bit value is accepted as immutable_cache.shm_size, then an allocator that is not
-- initialized and tries segment 0 first, once it is initialized with that size and any number of
-- segments and file mask, is marked so and has one segment, which is the one to try first; it and
-- the segment of the locks satisfy the invariant, whatever the memory held.
pub configured-IsStarted :
    (memory : ℕ → Blocks) (address : ℕ → ℕ) (st : State) (segments shm_size : ℤ) (size : ℕ)
    (mask : Option (List ℕ))
    → pos_part shm_size < 2 ^ 63
    → on_update_shm_size shm_size ≡ some size
    → st.initialized ≡ false
    → st.sma.last ≡ 0
    → IsStarted 1 (sma_init memory address st (on_update_shm_segments segments) size mask)
unfolding on_update_shm_segments number_of_segments
configured-IsStarted memory address st segments shm_size size mask word accepted new last0 =
    let (room, small, wide) = on_update_shm_size_bounds shm_size size word accepted in
    let one : number_of_segments mask (pos 1) ≡ 1 = ground arith in
    subst (λ n. IsStarted n (sma_init memory address st (pos 1) size mask)) one
      (sma_init-IsStarted memory address st (pos 1) size mask new last0 room small)
