-- ===== src/Mapping/Masks.antt =====
-- A mask for the names of files, over the one segment that the settings allow and that of the locks.
use immutable_cache_pecl.Prelude.{
  ℕ, zero, suc, ◌+◌, ◌-◌, ◌≡◌, ◌≢◌, refl, ap, sym, Bool, false, List, [], ◌∷◌, Option, none, some,
  length, ltb, if◌then◌else◌, if_false, Bool-cases, Option-cases, inl, inr, arith, same,
}
use mathlib.Core.Path.{subst}
use immutable_cache_pecl.Prelude.Int.{ℤ, pos}
use immutable_cache_pecl.Sma.Blocks.{Blocks}
use immutable_cache_pecl.Sma.Setup.{
  State, number_of_segments, default_segsize, on_update_shm_segments, sma_init,
}
use immutable_cache_pecl.Mapping.{
  Os, Mapped, Outcome, fatal, done, six, map_file, map_segment, map_segments, sma_init_mapped,
  address_of,
}

abbrev without : ℕ → List ℕ → List ℕ
without zero xs = xs
without (suc n) [] = []
without (suc n) (x ∷ xs) = without n xs

-- the mask ends in `XXXXXX`
abbrev pub is_template : List ℕ → Bool
is_template mask = same (without (length mask - 6) mask) six

-- What the manual says of `mkstemp`.
pub record IsStrict {S : Type 0} (os : Os S) : Type 0 where
  pub invalid : (s : S) (mask : List ℕ) → is_template mask ≡ false → (os.mkstemp s mask).0 ≡ none
  pub in_place :
      (s : S) (mask : List ℕ) (fd : ℕ) (name : List ℕ)
      → (os.mkstemp s mask).0 ≡ some (fd, name)
      → length name ≡ length mask

abbrev pub IsFatal : {S A : Type 0} → Outcome S A → Type 0
IsFatal (fatal f s) = Unit {0}
IsFatal (done a mask s) = ⊥

module _ {S : Type 0} (os : Os S) (strict : IsStrict os) where
  -- what is in the buffer of the mask after one segment
  abbrev Named : S → List ℕ → Outcome S Mapped → Type 0
  Named s mask (fatal f s') = Unit {0}
  Named s mask (done m used s') =
      (fd : ℕ) × (name : List ℕ) × ((os.mkstemp s mask).0 ≡ some (fd, name)) × (used ≡ some name)

  map_file-Named :
      (s s₁ : S) (x : ℕ) (xs : List ℕ) (size fd : ℕ) (name : List ℕ)
      → (os.mkstemp s (x ∷ xs)).0 ≡ some (fd, name)
      → Named s (x ∷ xs) (map_file os (some fd) (some name) size s₁)
  unfolding map_file
  map_file-Named s s₁ x xs size fd name made = elim (Option-cases (os.mmap s₁ size (some fd)).0) [
    | inl failed ↦ rw (failed, Named, map_file) tt
    | inr (address, there) ↦ rw (there, Named, map_file) (fd, name, made, refl)
  ]

  map_segment-Named :
      (s : S) (x : ℕ) (xs : List ℕ) (size : ℕ)
      → Named s (x ∷ xs) (map_segment os (some (x ∷ xs)) size s)
  unfolding map_segment
  map_segment-Named s x xs size =
      let s₁ = (os.mkstemp s (x ∷ xs)).1 in
      elim (Option-cases (os.mkstemp s (x ∷ xs)).0) [
        | inl refused ↦ rw (refused, Named, map_segment) tt
        | inr ((fd, name), made) ↦ elim (Bool-cases (os.ftruncate s₁ fd size).0) [
          | inl long ↦
              let s₂ = (os.unlink (os.ftruncate s₁ fd size).1 name).1 in
              let same_outcome : map_segment os (some (x ∷ xs)) size s
                  ≡ map_file os (some fd) (some name) size s₂ =
                rw (made, map_segment, long) refl in
              subst (Named s (x ∷ xs)) (sym same_outcome)
                (map_file-Named s s₂ x xs size fd name made)
          | inr short ↦ rw (made, Named, map_segment, short) tt
        ]
      ]

  -- a name that is no template
  spent-IsFatal :
      (size k : ℕ) (s : S) (name : List ℕ)
      → is_template name ≡ false
      → name ≢ []
      → IsFatal (map_segments os 1 size (suc k) 1 (some name) s)
  unfolding map_segments map_segment
  spent-IsFatal size k s [] spent there = absurd (there refl)
  spent-IsFatal size k s (y ∷ ys) spent there =
      rw (strict.invalid s (y ∷ ys) spent, IsFatal, map_segments, map_segment) tt

  -- the outcome of the first round decides
  abbrev after : ℕ → Outcome S Mapped → Outcome S (List Mapped)
  after size q = elim q [
    | fatal f s₁ ↦ fatal f s₁
    | done m used s₁ ↦ elim (map_segments os 1 size 1 1 used s₁) [
      | fatal f s₂ ↦ fatal f s₂
      | done ms last s₂ ↦ done (m ∷ ms) last s₂
    ]
  ]

  add-IsFatal :
      (m : Mapped) (q : Outcome S (List Mapped))
      → IsFatal q
      → IsFatal {S = S} {A = List Mapped}
          (elim q [ fatal f s₂ ↦ fatal f s₂ | done ms last s₂ ↦ done (m ∷ ms) last s₂ ])
  add-IsFatal m (fatal f s) h = tt
  add-IsFatal m (done ms last s) h = absurd h

  after-IsFatal :
      (size : ℕ) (s : S) (x : ℕ) (xs : List ℕ) (q : Outcome S Mapped)
      → Named s (x ∷ xs) q
      → ((fd : ℕ) (name : List ℕ)
          → (os.mkstemp s (x ∷ xs)).0 ≡ some (fd, name)
          → is_template name ≡ false)
      → IsFatal (after size q)
  after-IsFatal size s x xs (fatal f s₁) n fresh = tt
  after-IsFatal size s x xs (done m used s₁) (fd, name, made, is) fresh =
      subst (λ u. IsFatal (after size (done m u s₁))) (sym is)
        (add-IsFatal m _ (
          spent-IsFatal size 0 s₁ name (fresh fd name made)
            (λ e. cc (ap (λ (l : List ℕ). length l) e, strict.in_place s (x ∷ xs) fd name made))))

  two_segments-IsFatal :
      (size : ℕ) (s : S) (x : ℕ) (xs : List ℕ)
      → ((fd : ℕ) (name : List ℕ)
          → (os.mkstemp s (x ∷ xs)).0 ≡ some (fd, name)
          → is_template name ≡ false)
      → IsFatal (map_segments os 1 size 2 0 (some (x ∷ xs)) s)
  unfolding map_segments
  two_segments-IsFatal size s x xs fresh =
      after-IsFatal size s x xs (map_segment os (some (x ∷ xs)) size s)
        (map_segment-Named s x xs size) fresh

  finish-IsFatal :
      {A B : Type 0} (f : A → S → B) (q : Outcome S A)
      → IsFatal q
      → IsFatal {S = S} {A = B}
          (elim q [ fatal e s' ↦ fatal e s' | done ms used s' ↦ done (f ms s') used s' ])
  finish-IsFatal f (fatal e s') h = tt
  finish-IsFatal f (done ms used s') h = absurd h

  -- If mkstemp accepts only a mask that ends in XXXXXX and keeps the length of the name, the
  -- allocator is not initialized, and the name that is made of a mask does not end in XXXXXX
  -- itself, then with any mask that is not empty, and any number of segments in the settings, the
  -- set-up of the allocator ends the program.
  pub sma_init_mapped-IsFatal :
      (memory : ℕ → Blocks) (st : State) (segments : ℤ) (size : ℕ) (x : ℕ) (xs : List ℕ) (s : S)
      → st.initialized ≡ false
      → ((fd : ℕ) (name : List ℕ)
          → (os.mkstemp s (x ∷ xs)).0 ≡ some (fd, name)
          → is_template name ≡ false)
      → IsFatal
          (sma_init_mapped os memory st (on_update_shm_segments segments) size (some (x ∷ xs)) s)
  unfolding sma_init_mapped on_update_shm_segments number_of_segments
  sma_init_mapped-IsFatal memory st segments size x xs s new fresh =
      let one : number_of_segments (some (x ∷ xs)) (pos 1) ≡ 1 = ground arith in
      let segsize = if ltb 0 size then size else default_segsize in
      let mask : Option (List ℕ) = some (x ∷ xs) in
      subst IsFatal (sym (if_false st.initialized _ _ new)) (
        finish-IsFatal (λ ms s'. sma_init memory (address_of ms) st (pos 1) size mask) _
          (subst (λ n. IsFatal (map_segments os n segsize (n + 1) 0 mask s)) (sym one)
            (two_segments-IsFatal segsize s x xs fresh)))
