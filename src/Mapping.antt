-- ===== src/Mapping.antt =====
-- immutable_cache_mmap.c, and the loop of `immutable_cache_sma_init` that maps the segments. The advice
-- on huge pages is left out: it changes nothing that the program sees.
use immutable_cache_pecl.Prelude.{
  ℕ, zero, suc, ◌+◌, ◌-◌, Bool, true, false, List, [], ◌∷◌, ◌++◌, Option, none, some, length,
  get_or, ltb, ◌==◌, take, if◌then◌else◌, same,
}
use immutable_cache_pecl.Prelude.Int.{ℤ}
use immutable_cache_pecl.Sma.Blocks.{Blocks}
use immutable_cache_pecl.Sma.Setup.{
  State, sma_init, number_of_segments, default_segsize, lock_segment_size,
}
pub mod Resources
pub mod Masks
mod Examples

-- The calls of the operating system. `mkstemp` returns a descriptor and the name that it wrote into
-- the mask, `mmap` takes the size and the descriptor, and none for an anonymous mapping; `close` and
-- `unlink` say whether they succeeded, which the source does not ask.
pub record Os (S : Type 0) : Type 0 where
  pub mkstemp : S → List ℕ → Option (ℕ × List ℕ) × S
  pub ftruncate : S → ℕ → ℕ → Bool × S
  pub mmap : S → ℕ → Option ℕ → Option ℕ × S
  pub close : S → ℕ → Bool × S
  pub unlink : S → List ℕ → Bool × S

-- `immutable_cache_segment_t`
pub record Mapped : Type 0 where
  pub shmaddr : ℕ
  pub size : ℕ

-- the messages with which the program ends
pub data Failure : Type 0 where
  mkstemp_failed ftruncate_failed mmap_failed : Failure

-- The end of the program by `E_CORE_ERROR`, or a result with what is in the buffer of the mask.
pub data Outcome (S A : Type 0) : Type 0 where
  fatal : Failure → S → Outcome S A
  done : A → Option (List ℕ) → S → Outcome S A

module _ {S : Type 0} (os : Os S) where
  abbrev pub close_file : Option ℕ → S → S
  close_file none s = s
  close_file (some fd) s = (os.close s fd).1

  -- what stands behind the choice of a file
  unfoldable pub map_file : Option ℕ → Option (List ℕ) → ℕ → S → Outcome S Mapped
  map_file fd mask size s =
      let (place, s₁) = os.mmap s size fd in
      elim place [
        | none ↦ fatal mmap_failed s₁
        | some address ↦ done (record { shmaddr = address; size = size }) mask (close_file fd s₁)
      ]

  -- `immutable_cache_mmap`
  unfoldable pub map_segment : Option (List ℕ) → ℕ → S → Outcome S Mapped
  unfolding map_file
  map_segment none size s = map_file none none size s
  map_segment (some []) size s = map_file none (some []) size s
  map_segment (some (x ∷ xs)) size s =
      let (made, s₁) = os.mkstemp s (x ∷ xs) in
      elim made [
        | none ↦ fatal mkstemp_failed s₁
        | some (fd, name) ↦
            let (ok, s₂) = os.ftruncate s₁ fd size in
            if ok
            then map_file (some fd) (some name) size (os.unlink s₂ name).1
            else fatal ftruncate_failed (os.unlink (os.close s₂ fd).1 name).1
      ]

-- `XXXXXX`
abbrev pub six : List ℕ
six = b'X' ∷ b'X' ∷ b'X' ∷ b'X' ∷ b'X' ∷ b'X' ∷ []

-- `memcpy(&mask[strlen(mask) - 6], "XXXXXX", 6)`, for a mask of at least six bytes
unfoldable pub reset_mask : Option (List ℕ) → Option (List ℕ)
reset_mask none = none
reset_mask (some mask) = some (take (length mask - 6) mask ++ six)

module _ {S : Type 0} (os : Os S) (num size : ℕ) where
  abbrev pub size_of : ℕ → ℕ
  size_of i = if ltb i num then size else lock_segment_size

  -- The rounds `i` to `i + k - 1` of the loop.
  unfoldable pub map_segments : ℕ → ℕ → Option (List ℕ) → S → Outcome S (List Mapped)
  unfolding map_segment reset_mask
  map_segments zero i mask s = done [] mask s
  map_segments (suc k) i mask s = elim (map_segment os mask (size_of i) s) [
    | fatal f s₁ ↦ fatal f s₁
    | done m used s₁ ↦
        let next = if num == 1 then used else reset_mask used in
        elim (map_segments k (i + 1) next s₁) [
          | fatal f s₂ ↦ fatal f s₂
          | done ms last s₂ ↦ done (m ∷ ms) last s₂
        ]
  ]

abbrev pub address_of : List Mapped → ℕ → ℕ
address_of ms i = (get_or ms i (record { shmaddr = 0; size = 0 })).shmaddr

-- `immutable_cache_sma_init`, with what may go wrong; `memory i` is what the `i`-th mapping holds
unfoldable pub sma_init_mapped :
    {S : Type 0} → Os S → (ℕ → Blocks) → State → ℤ → ℕ → Option (List ℕ) → S → Outcome S State
sma_init_mapped os memory st num size mask s =
    let count = number_of_segments mask num in
    let segsize = if ltb 0 size then size else default_segsize in
    let mapped = map_segments os count segsize (count + 1) 0 mask s in
    if st.initialized then done st mask s else elim mapped [
      | fatal f s' ↦ fatal f s'
      | done ms used s' ↦ done (sma_init memory (address_of ms) st num size mask) used s'
    ]
