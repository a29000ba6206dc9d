-- ===== src/Cache/Create.antt =====
-- immutable_cache_cache.c: the creation of the cache.
use mathlib.Core.Path.{subst}
use immutable_cache_pecl.Prelude.{
  ℕ, zero, suc, ◌+◌, ◌*◌, ◌%◌, ◌^◌, ◌<◌, ◌≡◌, refl, sym, ap, ◌/◌, Bool, true, false, ◌&&◌, ◌||◌,
  List, [], ◌∷◌, Option, none, some, arith, replicate, length-replicate, get_or-replicate, ltb, leb,
  ◌==◌, if◌then◌else◌, Bool-cases, inl, inr,
}
use immutable_cache_pecl.Cache.Entry.{Entry}
use immutable_cache_pecl.Cache.Locks.{Process, protect}
use immutable_cache_pecl.Cache.State.{Cache, Shm}
use immutable_cache_pecl.Cache.Slots.{rlocked_find_nostat, hash_slot, find_in}
use immutable_cache_pecl.Cache.Chains.{frozen?}
use immutable_cache_pecl.Cache.View.{IsHome, entries, slots_mem, view, IsValid}

-- `primes`, less the sentinel
abbrev pub primes : List ℕ
primes =
    257 ∷ 521 ∷ 1031 ∷ 2053 ∷ 3079 ∷ 4099 ∷ 5147 ∷ 6151 ∷ 7177 ∷ 8209 ∷ 9221 ∷ 10243 ∷ 11273 ∷ 12289
    ∷ 13313 ∷ 14341 ∷ 15361 ∷ 16411 ∷ 17417 ∷ 18433 ∷ 19457 ∷ 20483 ∷ 30727 ∷ 40961 ∷ 61441 ∷ 81929
    ∷ 122887 ∷ 163841 ∷ 245771 ∷ 327689 ∷ 491527 ∷ 655373 ∷ 983063 ∷ []

-- `k > n` for an `int` n, given as a word of 32 bits
abbrev pub above : ℕ → ℕ → Bool
above k n = leb (2 ^ 31) n || ltb n k

-- The loop; `last` is `*(k-1)`.
unfoldable pub first_above : List ℕ → ℕ → ℕ → ℕ
first_above [] last n = last
first_above (k ∷ ks) last n = if above k n then k else first_above ks k n

unfoldable pub make_prime : ℕ → ℕ
unfolding first_above
make_prime n = first_above primes 0 n

-- The sizes of `immutable_cache_cache_header_t` and of a pointer on a platform of 64 bits.
abbrev pub cache_header_size : ℕ
cache_header_size = 56

abbrev pub pointer_size : ℕ
pointer_size = 8

-- the assignments to the header and to the cache
abbrev pub fresh_cache : {R W S : Type 0} → S → Option R → ℕ → ℕ → Cache R W S
fresh_cache sma serializer nslots now = record {
  header = record {
    nhits = 0;
    nmisses = 0;
    ninserts = 0;
    nentries = 0;
    mem_size = 0;
    stime = now;
    state = 0;
  };
  slots = replicate nslots [];
  sma = sma;
  serializer = serializer;
  nslots = nslots;
  loaded_serializer = false;
}

-- `immutable_cache_cache_create`. `malloc` is `immutable_cache_sma_malloc`; its result is the address,
-- 0 for NULL. The hint is a `zend_long` that is not negative, and becomes an `int`. Without memory the
-- program ends (`none`).
unfoldable pub create :
    {R W S : Type 0}
    → (S → ℕ → ℕ × S)
    → S
    → Option R
    → ℕ
    → ℕ
    → Process
    → Option (Cache R W S × Process)
unfolding make_prime
create malloc sma serializer size_hint now p =
    let nslots = make_prime ((if ltb 0 size_hint then size_hint else 2000) % 2 ^ 32) in
    let cache_size = cache_header_size + nslots * pointer_size in
    let (address, sma') = malloc sma (cache_size + 64) in
    if (address + 63) / 64 * 64 == 0
    then none
    else some (fresh_cache sma' serializer nslots now, protect true (protect false p))

abbrev tail_of : List ℕ → List ℕ
tail_of [] = []
tail_of (k ∷ ks) = ks

abbrev end_of : ℕ → List ℕ → ℕ
end_of k [] = k
end_of k (x ∷ ks) = end_of x ks

abbrev all_positive : List ℕ → Bool
all_positive [] = true
all_positive (k ∷ ks) = ltb 0 k && all_positive ks

-- below the last number of a list, the result is above
first_above-above :
    (k : ℕ) (ks : List ℕ) (last n : ℕ)
    → n < 2 ^ 31
    → n < end_of k ks
    → n < first_above (k ∷ ks) last n
unfolding first_above
first_above-above k [] last n int below = ground arith
first_above-above k (x ∷ ks) last n int below =
    let rest = first_above-above x ks k n int below in
    elim (Bool-cases (above k n)) [ inl it ↦ rw it (ground arith) | inr not_it ↦ rw not_it rest ]

first_above-positive :
    (k : ℕ) (ks : List ℕ) (last n : ℕ)
    → all_positive (k ∷ ks) ≡ true
    → 0 < first_above (k ∷ ks) last n
unfolding first_above
first_above-positive k [] last n each = ground arith
first_above-positive k (x ∷ ks) last n each =
    let rest = first_above-positive x ks k n (ground arith) in
    elim (Bool-cases (above k n)) [ inl it ↦ rw it (ground arith) | inr not_it ↦ rw not_it rest ]

make_prime-positive : (n : ℕ) → 0 < make_prime n
unfolding make_prime
make_prime-positive n = first_above-positive 257 (tail_of primes) 0 n refl

-- Below 983063, the number of slots is larger than what was asked for.
pub make_prime-above : (n : ℕ) → n < 983063 → n < make_prime n
unfolding make_prime
make_prime-above n below = first_above-above 257 (tail_of primes) 0 n (omega arith) below

module _ {V R W S : Type 0} (shm : Shm V R W S) where
  slots-counts :
      (n : ℕ) → (entries {W = W} (replicate n []) ≡ 0) × (slots_mem {W = W} (replicate n []) ≡ 0)
  slots-counts zero = (refl, refl)
  slots-counts (suc n) = let rest = slots-counts n in (omega arith, omega arith)

  fresh_cache-IsValid :
      (sma : S) (serializer : Option R) (n now : ℕ)
      → 0 < n
      → IsValid shm (fresh_cache sma serializer n now)
  fresh_cache-IsValid sma serializer n now pos = record {
    width = length-replicate n [];
    positive = pos;
    placed = λ i. subst (IsHome shm.hash n i) (sym (get_or-replicate n i [])) tt;
    counted = omega (arith, slots-counts n);
    inserted = refl;
    used = omega (arith, slots-counts n);
  }

  fresh_cache-view :
      (sma : S) (serializer : Option R) (n now : ℕ) (key : List ℕ)
      → view shm (fresh_cache sma serializer n now) key ≡ none
  unfolding view rlocked_find_nostat hash_slot find_in
  fresh_cache-view sma serializer n now key =
      ap (λ (es : List (Entry W)). frozen? (find_in es key (shm.hash key)))
        (get_or-replicate n (shm.hash key % n) [])

  -- Whatever the hint, the memory and the time, a cache that is created is valid and its view is
  -- empty.
  pub create-IsValid :
      (malloc : S → ℕ → ℕ × S) (sma : S) (serializer : Option R) (size_hint now : ℕ) (p : Process)
      (c : Cache R W S) (q : Process)
      → create malloc sma serializer size_hint now p ≡ some (c, q)
      → IsValid shm c × ((key : List ℕ) → view shm c key ≡ none)
  unfolding create
  create-IsValid malloc sma serializer size_hint now p c q done =
      let n = make_prime ((if ltb 0 size_hint then size_hint else 2000) % 2 ^ 32) in
      let r = malloc sma (cache_header_size + n * pointer_size + 64) in
      elim (Bool-cases ((r.0 + 63) / 64 * 64 == 0)) [
        | inl missing ↦ absurd (ground arith)
        | inr there ↦
            let same : fresh_cache r.1 serializer n now ≡ c = ground arith in
            subst (λ (d : Cache R W S). IsValid shm d × ((key : List ℕ) → view shm d key ≡ none))
              same
              (
                fresh_cache-IsValid r.1 serializer n now
                    (make_prime-positive ((if ltb 0 size_hint then size_hint else 2000) % 2 ^ 32)),
                fresh_cache-view r.1 serializer n now,
              )
      ]
