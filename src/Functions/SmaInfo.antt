-- ===== src/Functions/SmaInfo.antt =====
-- php_immutable_cache.c: the function `immutable_cache_sma_info`, whose answer the status page shows.
use immutable_cache_pecl.Prelude.{
  ℕ, ◌+◌, ◌*◌, ◌%◌, ◌^◌, ◌≡◌, refl, ap, Bool, true, false, List, Option, none, some, length,
  if◌then◌else◌, ◌∙◌, sym,
}
use immutable_cache_pecl.Cache.Locks.{Process, Grant, sma_lock}
use immutable_cache_pecl.Cache.Balance.{IsQuiet}
use immutable_cache_pecl.Sma.Words.{block_size}
use immutable_cache_pecl.Sma.Heap.{Sma, get_avail_mem}
use immutable_cache_pecl.Sma.Heap.Total.{AllFine}
use immutable_cache_pecl.Sma.Info.{Link, sma_info}
use immutable_cache_pecl.Sma.Info.Lists.{AllTell, sma_info-AllTell}
use immutable_cache_pecl.Sma.Info.Sums.{lists_total, get_avail_mem-lists_total}

-- The array that is returned; `block_lists` is absent if `limited` is set.
pub record SmaInfo : Type 0 where
  pub num_seg : ℕ
  pub seg_size : ℕ
  pub avail_mem : ℕ
  pub block_lists : Option (List (List Link))

-- `PHP_FUNCTION(immutable_cache_sma_info)`: the inner `none` is the value false, the outer one means
-- that the fuel ran out.
unfoldable pub sma_info_function :
    ℕ → Grant → Bool → Bool → Sma → Process → Option (Option SmaInfo × Process)
sma_info_function fuel grant initialized limited sma p =
    elim (sma_info fuel grant initialized limited sma p) [
      | none ↦ none
      | some (info, p') ↦ elim info [
        | none ↦ some (none, p')
        | some i ↦ some (
          some (record {
            num_seg = i.num_seg;
            seg_size = i.seg_size;
            avail_mem = get_avail_mem sma.segs;
            block_lists = if limited then none else some i.list;
          }),
          p',
        )
      ]
    ]

-- What is shown adds up: the free memory is that of the listed blocks, and one header a segment.
pub record AddsUp (sma : Sma) (r : SmaInfo) : Type 0 where
  pub lists : List (List Link)
  pub shown : r.block_lists ≡ some lists
  pub told : AllTell sma.segs lists
  pub count : r.num_seg ≡ length sma.segs
  pub sum : r.avail_mem ≡ (lists_total lists + block_size * r.num_seg) % 2 ^ 64

-- If the allocator is initialized, the lock is granted to a process that cannot write to
-- protected memory, and every segment satisfies the invariant with enough fuel for its free list,
-- then the unlimited call of the function returns an array whose block lists give, segment by
-- segment, the size and offset of the blocks on the free list in its order, whose number of
-- segments is right, and whose available memory is, modulo 2^64, the sum of the sizes of the
-- listed blocks and a block header for each segment; the process has given back the locks.
pub sma_info_function-AddsUp :
    (fuel : ℕ) (grant : Grant) (p : Process) (sma : Sma)
    → (sma_lock grant p).0 ≡ true
    → IsQuiet p
    → AllFine fuel sma.segs
    → (r : SmaInfo) × (sma_info_function fuel grant true false sma p ≡ some (some r, p))
      × AddsUp sma r
unfolding sma_info_function
sma_info_function-AddsUp fuel grant p sma granted quiet fine =
    let (info, e, count, all) = sma_info-AllTell fuel grant p sma granted quiet fine in
    (
      record {
        num_seg = info.num_seg;
        seg_size = info.seg_size;
        avail_mem = get_avail_mem sma.segs;
        block_lists = some info.list;
      },
      rw (sma_info_function, e),
      record {
        lists = info.list;
        shown = refl;
        told = all;
        count = count;
        sum =
            get_avail_mem-lists_total sma.segs info.list all
            ∙ ap (λ n. (lists_total info.list + block_size * n) % 2 ^ 64) (sym count);
      },
    )
