-- ===== src/Sma/Search.antt =====
-- `find_block`: the first block that fits, and then the best of it and the next three.
use immutable_cache_pecl.Prelude.{
  ℕ, zero, suc, ◌&&◌, Option, none, some, ltb, leb, ◌==◌, if◌then◌else◌,
}
use immutable_cache_pecl.Sma.Blocks.{Blocks, first}

abbrev pub best_fit_limit : ℕ
best_fit_limit = 3

-- The `while` loop. `none` means that the fuel ran out, `some 0` that no block fits.
unfoldable pub first_fit : ℕ → Blocks → ℕ → ℕ → Option ℕ
first_fit zero b realsize prv = none
first_fit (suc fuel) b realsize prv =
    let cur = b.fnext prv in
    let rest = first_fit fuel b realsize cur in
    if cur == 0 then some 0 else if leb realsize (b.size cur) then some cur else rest

-- The `for` loop over `i` more blocks.
unfoldable pub better_fit : ℕ → Blocks → ℕ → ℕ → ℕ → ℕ
better_fit zero b realsize prv found = found
better_fit (suc i) b realsize prv found =
    let cur = b.fnext prv in
    let rest =
      better_fit i b realsize cur
        (if leb realsize (b.size cur) && ltb (b.size cur) (b.size found) then cur else found) in
    if cur == 0 then found else rest

unfoldable pub find_block : ℕ → Blocks → ℕ → Option ℕ
unfolding first_fit better_fit
find_block fuel b realsize = elim (first_fit fuel b realsize first) [
  | none ↦ none
  | some found ↦
      if found == 0 then some 0 else some (better_fit best_fit_limit b realsize found found)
]
