-- ===== src/Sma/Deallocate.antt =====
-- `sma_deallocate`, step by step.
use immutable_cache_pecl.Prelude.{ℕ, ◌-◌, ◌==◌, if◌then◌else◌}
use immutable_cache_pecl.Sma.Words.{add64, sub64, block_size}
use immutable_cache_pecl.Sma.Blocks.{Blocks, Segment, write, next_sblock, first}

-- `BLOCKAT(o->fnext)->fprev = o->fprev; BLOCKAT(o->fprev)->fnext = o->fnext`
abbrev pub unlink : Blocks → ℕ → Blocks
unlink b o =
    let b₁ = record b { fprev = write b.fprev (b.fnext o) (b.fprev o) } in
    record b₁ { fnext = write b₁.fnext (b₁.fprev o) (b₁.fnext o) }

-- The previous block is free: it leaves the list and takes the block in. The result is the block
-- to go on with.
unfoldable pub join_prev : Blocks → ℕ → ℕ × Blocks
join_prev b cur =
    if b.prev_size cur == 0
    then (cur, b)
    else (let prv = cur - b.prev_size cur in
        let b₁ = unlink b prv in
        (prv, record b₁ { size = write b₁.size prv (add64 (b₁.size prv) (b₁.size cur)) }))

-- The next block is free: it leaves the list and is taken in.
unfoldable pub join_next : Blocks → ℕ → Blocks
join_next b cur =
    let nxt = next_sblock b cur in
    if b.fnext nxt == 0
    then b
    else (let b₁ = unlink b nxt in
        record b₁ { size = write b₁.size cur (add64 (b₁.size cur) (b₁.size nxt)) })

-- The block is put in front of the free list.
unfoldable pub push_free : Blocks → ℕ → Blocks
push_free b cur =
    let b₁ = record b {
      prev_size = write b.prev_size (next_sblock b cur) (b.size cur);
      fnext = write b.fnext cur (b.fnext first);
    } in
    let b₂ = record b₁ { fnext = write b₁.fnext first cur; fprev = write b₁.fprev cur first } in
    record b₂ { fprev = write b₂.fprev (b₂.fnext cur) cur }

-- `offset` is that of the payload; the result is the size of the block that was freed.
unfoldable pub deallocate : Segment → ℕ → ℕ × Segment
unfolding join_prev join_next push_free
deallocate seg offset =
    let b = seg.blocks in
    let cur₀ = sub64 offset block_size in
    let size = b.size cur₀ in
    let (cur, b₁) = join_prev b cur₀ in
    let b₂ = join_next b₁ cur in
    (size, record seg { avail = add64 seg.avail size; blocks = push_free b₂ cur })
