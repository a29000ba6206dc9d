-- ===== src/Persist/Memo.antt =====
-- immutable_cache_persist.c: the tables of pointers that were met before.
use immutable_cache_pecl.Prelude.{
  ℕ, ◌+◌, ◌*◌, ◌/◌, ◌%◌, ◌^◌, ◌<◌, ◌≡◌, Bool, true, false, List, [], ◌∷◌, Option, none, some, arith,
  ◌==◌, if◌then◌else◌,
}
use immutable_cache_pecl.Persist.Value.{Zval}

-- `immutable_cache_shr3`: a rotation of a word of 64 bits
unfoldable pub shr3 : ℕ → ℕ
shr3 index = index / 8 + index * 2 ^ 61 % 2 ^ 64

-- `immutable_cache_pointer_to_hash_key`
unfoldable pub pointer_to_hash_key : ℕ → ℕ
unfolding shr3
pointer_to_hash_key ptr = shr3 ptr

-- Two pointers of 64 bits that have the same key in the tables of pointers are the same.
pub pointer_to_hash_key_inj :
    (a b : ℕ) → a < 2 ^ 64 → b < 2 ^ 64 → pointer_to_hash_key a ≡ pointer_to_hash_key b → a ≡ b
unfolding pointer_to_hash_key
pointer_to_hash_key_inj a b wa wb same = omega (arith, wa, wb, same)

-- `already_counted`
abbrev pub counted : ℕ → List ℕ → Bool
counted k [] = false
counted k (x ∷ xs) = if k == x then true else counted k xs

-- `already_allocated`: what stands in shared memory for a pointer
abbrev pub lookup : ℕ → List (ℕ × Zval) → Option Zval
lookup k [] = none
lookup k ((x, z) ∷ xs) = if k == x then some z else lookup k xs

abbrev pub note_made : ℕ → Zval → Option (List (ℕ × Zval)) → Option (List (ℕ × Zval))
note_made k z none = none
note_made k z (some made) = some ((k, z) ∷ made)
