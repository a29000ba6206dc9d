-- ===== src/Sma/Words.antt =====
-- `size_t` arithmetic on a 64-bit platform, and the sizes that the layout of a segment rests on:
-- those of an LP64 system whose locks fit into 64 bytes, built without canaries.
use immutable_cache_pecl.Prelude.{ℕ, ◌+◌, ◌-◌, ◌*◌, ◌/◌, ◌%◌, ◌^◌, ◌≤◌, ◌<◌, ◌≡◌, arith}

abbrev pub size_max : ℕ
size_max = 2 ^ 64 - 1

abbrev pub add64 : ℕ → ℕ → ℕ
add64 a b = (a + b) % 2 ^ 64

abbrev pub sub64 : ℕ → ℕ → ℕ
sub64 a b = (a + 2 ^ 64 - b) % 2 ^ 64

-- `ALIGNSIZE(x, 8)`, where `(x) - 1` wraps at 0
unfoldable pub alignword : ℕ → ℕ
alignword x = (8 * (1 + sub64 x 1 / 8)) % 2 ^ 64

-- `ALIGNWORD(sizeof(block_t))`: four words
abbrev pub block_size : ℕ
block_size = 32

-- `ALIGNWORD(sizeof(sma_header_t))`: seventeen padded locks and two words
abbrev pub header_size : ℕ
header_size = 1104

-- `MINBLOCKSIZE`: `ALIGNWORD(1) + ALIGNWORD(sizeof(block_t))`
abbrev pub min_block_size : ℕ
min_block_size = 40

-- For a positive number of at most 2^64 - 8, the aligned size is a multiple of eight, at least
-- the number and less than eight above it.
pub alignword_bounds :
    (x : ℕ)
    → 0 < x
    → x ≤ 2 ^ 64 - 8
    → (x ≤ alignword x) × (alignword x < x + 8) × (alignword x % 8 ≡ 0)
unfolding alignword
alignword_bounds x pos small = (omega arith, omega arith, omega arith)

-- At the wrap-around the result is zero.
pub alignword_wraps : (x : ℕ) → 2 ^ 64 - 8 < x → x < 2 ^ 64 → alignword x ≡ 0
unfolding alignword
alignword_wraps x big word = omega arith
