-- ===== src/Sma/Blocks.antt =====
-- A segment of shared memory: its header, and its blocks as four maps from the offset of a block
-- to a field of `block_t`. `BLOCKAT(o)->size` is `b.size o`.
use immutable_cache_pecl.Prelude.{ℕ, ◌+◌, ◌-◌, ◌==◌, if◌then◌else◌}
use immutable_cache_pecl.Sma.Words.{block_size, header_size}

pub record Blocks : Type 0 where
  pub size : ℕ → ℕ
  pub prev_size : ℕ → ℕ
  pub fnext : ℕ → ℕ
  pub fprev : ℕ → ℕ

-- the assignment of one field of the block at `o`
abbrev pub write : (ℕ → ℕ) → ℕ → ℕ → ℕ → ℕ
write f o v a = if a == o then v else f a

pub record Segment : Type 0 where
  pub segsize : ℕ
  pub avail : ℕ
  pub blocks : Blocks

-- The sentinel at the front, the first block behind it, and the sentinel at the end.
abbrev pub first : ℕ
first = header_size

abbrev pub start : ℕ
start = header_size + block_size

abbrev pub last_of : ℕ → ℕ
last_of segsize = segsize - block_size - block_size

-- `NEXT_SBLOCK(block)`
abbrev pub next_sblock : Blocks → ℕ → ℕ
next_sblock b o = o + b.size o
