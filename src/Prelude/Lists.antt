-- ===== src/Prelude/Lists.antt =====
-- Lists measured and indexed by native numbers, under the library's names.
use Prim.Native.Nat.{ℕ, zero, suc, ◌+◌, ◌≤◌, ◌<◌}
use mathlib.Core.Path.{◌≡◌, refl, ap}
use mathlib.Core.Bool.{Bool, true, false, ◌&&◌}
use mathlib.Core.List.{List, [], ◌∷◌, ◌++◌}
use native.Mathlib.Omega.{arith}
use immutable_cache_pecl.Prelude.Tests.{◌==◌, if◌then◌else◌}

module _ {ℓ} {A : Type ℓ} where
  abbrev pub length : List A → ℕ
  length [] = 0
  length (x ∷ xs) = suc (length xs)

  abbrev pub get_or : List A → ℕ → A → A
  get_or [] i d = d
  get_or (x ∷ xs) zero d = x
  get_or (x ∷ xs) (suc i) d = get_or xs i d

  -- A write out of bounds changes nothing.
  abbrev pub set : List A → ℕ → A → List A
  set [] i v = []
  set (x ∷ xs) zero v = v ∷ xs
  set (x ∷ xs) (suc i) v = x ∷ set xs i v

  abbrev pub take : ℕ → List A → List A
  take zero xs = []
  take (suc n) [] = []
  take (suc n) (x ∷ xs) = x ∷ take n xs

  abbrev pub replicate : ℕ → A → List A
  replicate zero a = []
  replicate (suc n) a = a ∷ replicate n a

module _ {ℓ} {A : Type ℓ} where
  pub length-append : (xs ys : List A) → length (xs ++ ys) ≡ length xs + length ys
  length-append [] ys = omega arith
  length-append (x ∷ xs) ys = omega (arith, length-append xs ys)

  pub take_all : (n : ℕ) (xs : List A) → length xs ≤ n → take n xs ≡ xs
  take_all zero [] h = refl
  take_all zero (x ∷ xs) h = absurd (omega arith)
  take_all (suc n) [] h = refl
  take_all (suc n) (x ∷ xs) h = ap (λ ys. x ∷ ys) (take_all n xs (omega arith))

  pub length-set : (xs : List A) (i : ℕ) (v : A) → length (set xs i v) ≡ length xs
  length-set [] i v = refl
  length-set (x ∷ xs) zero v = refl
  length-set (x ∷ xs) (suc i) v = ap suc (length-set xs i v)

  pub length-replicate : (n : ℕ) (a : A) → length (replicate n a) ≡ n
  length-replicate zero a = refl
  length-replicate (suc n) a = ap suc (length-replicate n a)

  pub get_or-replicate : (n i : ℕ) (a : A) → get_or (replicate n a) i a ≡ a
  get_or-replicate zero i a = refl
  get_or-replicate (suc n) zero a = refl
  get_or-replicate (suc n) (suc i) a = get_or-replicate n i a

  pub get_or-set :
      (xs : List A) (i j : ℕ) (v d : A)
      → i < length xs
      → get_or (set xs i v) j d ≡ (if i == j then v else get_or xs j d)
  get_or-set [] i j v d h = absurd (omega arith)
  get_or-set (x ∷ xs) zero zero v d h = refl
  get_or-set (x ∷ xs) zero (suc j) v d h = ground arith
  get_or-set (x ∷ xs) (suc i) zero v d h = ground arith
  get_or-set (x ∷ xs) (suc i) (suc j) v d h = ground (arith, get_or-set xs i j v d)

-- `memcmp(a, b, n) == 0`: the first `n` bytes are the same.
abbrev pub memcmp : List ℕ → List ℕ → ℕ → Bool
memcmp xs ys zero = true
memcmp [] [] (suc n) = true
memcmp (x ∷ xs) (y ∷ ys) (suc n) = x == y && memcmp xs ys n
memcmp _ _ (suc n) = false

pub memcmp_refl : (xs : List ℕ) (n : ℕ) → memcmp xs xs n ≡ true
memcmp_refl xs zero = refl
memcmp_refl [] (suc n) = refl
memcmp_refl (x ∷ xs) (suc n) = ground (arith, memcmp_refl xs n)

-- With equal lengths, equal bytes make equal strings.
pub eq_of_memcmp :
    (xs ys : List ℕ) → length xs ≡ length ys → memcmp xs ys (length ys) ≡ true → xs ≡ ys
eq_of_memcmp [] [] e h = refl
eq_of_memcmp [] (y ∷ ys) e h = absurd (omega arith)
eq_of_memcmp (x ∷ xs) [] e h = absurd (omega arith)
eq_of_memcmp (x ∷ xs) (y ∷ ys) e h = ground (arith, eq_of_memcmp xs ys)

-- Two strings are the same.
abbrev pub same : List ℕ → List ℕ → Bool
same xs ys = length xs == length ys && memcmp xs ys (length ys)

pub eq_of_same : (xs ys : List ℕ) → same xs ys ≡ true → xs ≡ ys
eq_of_same xs ys t = ground (arith, eq_of_memcmp xs ys)

pub same_refl : (xs : List ℕ) → same xs xs ≡ true
same_refl xs = ground (arith, memcmp_refl xs (length xs))
