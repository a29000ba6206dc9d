-- ===== src/Sma/Allocate.antt =====
-- `sma_allocate`, in three parts: the two branches on the block that was found, and the rest.
use immutable_cache_pecl.Prelude.{
  ℕ, ◌+◌, Bool, ◌&&◌, ◌||◌, Option, none, some, ltb, ◌==◌, if◌then◌else◌,
}
use immutable_cache_pecl.Sma.Words.{add64, sub64, alignword, block_size, min_block_size}
use immutable_cache_pecl.Sma.Blocks.{Blocks, Segment, write, next_sblock}
use immutable_cache_pecl.Sma.Search.{find_block}

-- The block is taken as a whole: it is unlinked, and the next block learns that it is in use.
unfoldable pub take_whole : Blocks → ℕ → Blocks
take_whole b cur =
    let prv = b.fprev cur in
    let b₁ = record b { fnext = write b.fnext prv (b.fnext cur) } in
    let b₂ = record b₁ { fprev = write b₁.fprev (b₁.fnext cur) prv } in
    record b₂ { prev_size = write b₂.prev_size (next_sblock b₂ cur) 0 }

-- The block is split: its rest takes its place in the free list.
unfoldable pub split_block : Blocks → ℕ → ℕ → Blocks
split_block b cur realsize =
    let oldsize = b.size cur in
    let b₁ = record b { size = write b.size cur realsize } in
    let nxt = next_sblock b₁ cur in
    let b₂ = record b₁ {
      prev_size = write b₁.prev_size nxt 0;
      size = write b₁.size nxt (sub64 oldsize realsize);
    } in
    let b₃ = record b₂ {
      prev_size = write b₂.prev_size (next_sblock b₂ nxt) (b₂.size nxt);
      fnext = write b₂.fnext nxt (b₂.fnext cur);
      fprev = write b₂.fprev nxt (b₂.fprev cur);
    } in
    let b₄ = record b₃ { fprev = write b₃.fprev (b₃.fnext nxt) nxt } in
    record b₄ { fnext = write b₄.fnext (b₄.fprev nxt) nxt }

-- `cur->size == realsize`, or what would be left over is too small for a block of its own
abbrev pub fits_whole : ℕ → ℕ → ℕ → Bool
fits_whole size realsize fragment =
    size == realsize
    || (ltb realsize size && ltb size (add64 realsize (add64 min_block_size fragment)))

-- `ALIGNWORD(size + block_size)`
unfoldable pub real_size : ℕ → ℕ
unfolding alignword
real_size size = alignword (add64 size block_size)

-- What both branches end with.
abbrev pub finish : Segment → Blocks → ℕ → Segment
finish seg b cur = record seg {
  blocks = record b { fnext = write b.fnext cur 0 };
  avail = sub64 seg.avail (b.size cur);
}

-- The outer `none` means that the fuel ran out. The result is the offset of the payload and its
-- size (`*allocated`), or `none` for SIZE_MAX.
unfoldable pub allocate : ℕ → Segment → ℕ → ℕ → Option (Option (ℕ × ℕ) × Segment)
unfolding find_block take_whole split_block real_size
allocate fuel seg size fragment =
    let realsize = real_size size in
    let b = seg.blocks in
    if ltb seg.avail realsize then some (none, seg) else elim (find_block fuel b realsize) [
      | none ↦ none
      | some cur ↦
          if cur == 0
          then some (none, seg)
          else if fits_whole (b.size cur) realsize fragment
          then some (
            some (cur + block_size, sub64 (b.size cur) block_size),
            finish seg (take_whole b cur) cur,
          )
          else some (
            some (cur + block_size, sub64 realsize block_size),
            finish seg (split_block b cur realsize) cur,
          )
    ]
