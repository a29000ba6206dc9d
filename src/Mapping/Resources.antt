-- ===== src/Mapping/Resources.antt =====
-- What the mapping of the segments leaves behind.
use immutable_cache_pecl.Prelude.{
  ℕ, zero, suc, ◌+◌, ◌≡◌, ◌⊎◌, refl, ap, sym, arith, ◌∙◌, Bool, true, false, not, ◌||◌, List, [],
  ◌∷◌, Option, none, some, length, ◌==◌, if◌then◌else◌, Bool-cases, Option-cases, inl, inr,
}
use immutable_cache_pecl.Mapping.{
  Os, Mapped, Failure, mmap_failed, Outcome, fatal, done, close_file, map_file, map_segment,
  map_segments, reset_mask, size_of,
}

-- The open descriptors of the process and the names in the file system, the last ones first, and
-- whether a call to close a descriptor or to remove a name has failed so far.
pub record Resources (S : Type 0) : Type 0 where
  pub descriptors : S → List ℕ
  pub files : S → List (List ℕ)
  pub failed : S → Bool

module _ {S : Type 0} (r : Resources S) where
  -- nothing of this is different
  abbrev pub Same : S → S → Type 0
  Same s s' =
      (r.descriptors s' ≡ r.descriptors s) × (r.files s' ≡ r.files s) × (r.failed s' ≡ r.failed s)

-- What the manuals say of them. A call that fails may leave anything.
pub record IsOs {S : Type 0} (os : Os S) (r : Resources S) : Type 0 where
  pub refused :
      (s : S) (mask : List ℕ) → (os.mkstemp s mask).0 ≡ none → Same r s (os.mkstemp s mask).1
  pub created :
      (s : S) (mask : List ℕ) (fd : ℕ) (name : List ℕ)
      → (os.mkstemp s mask).0 ≡ some (fd, name)
      → (r.descriptors (os.mkstemp s mask).1 ≡ fd ∷ r.descriptors s)
        × (r.files (os.mkstemp s mask).1 ≡ name ∷ r.files s)
        × (r.failed (os.mkstemp s mask).1 ≡ r.failed s)
  pub truncated : (s : S) (fd size : ℕ) → Same r s (os.ftruncate s fd size).1
  pub mapped : (s : S) (size : ℕ) (fd : Option ℕ) → Same r s (os.mmap s size fd).1
  pub close_noted :
      (s : S) (fd : ℕ) → r.failed (os.close s fd).1 ≡ (r.failed s || not (os.close s fd).0)
  pub closed :
      (s : S) (fd : ℕ) (ds : List ℕ)
      → (os.close s fd).0 ≡ true
      → r.descriptors s ≡ fd ∷ ds
      → (r.descriptors (os.close s fd).1 ≡ ds) × (r.files (os.close s fd).1 ≡ r.files s)
  pub unlink_noted :
      (s : S) (name : List ℕ)
      → r.failed (os.unlink s name).1 ≡ (r.failed s || not (os.unlink s name).0)
  pub unlinked :
      (s : S) (name : List ℕ) (fs : List (List ℕ))
      → (os.unlink s name).0 ≡ true
      → r.files s ≡ name ∷ fs
      → (r.files (os.unlink s name).1 ≡ fs) × (r.descriptors (os.unlink s name).1 ≡ r.descriptors s)

module _ {S : Type 0} (os : Os S) (r : Resources S) (laws : IsOs os r) where
  -- If nothing has failed by now, nothing had at `s`, and now there are these descriptors and files.
  Now : S → List ℕ → List (List ℕ) → S → Type 0
  Now s ds fs s' =
      r.failed s' ≡ false → (r.failed s ≡ false) × (r.descriptors s' ≡ ds) × (r.files s' ≡ fs)

  Now-Same :
      (s : S) (ds : List ℕ) (fs : List (List ℕ)) (s' s₁ : S)
      → Now s ds fs s'
      → Same r s' s₁
      → Now s ds fs s₁
  unfolding Now
  Now-Same s ds fs s' s₁ now (d, f, e) well =
      let (before, d', f') = now (sym e ∙ well) in (before, d ∙ d', f ∙ f')

  or_false : (a b : Bool) → (a || not b) ≡ false → (a ≡ false) × (b ≡ true)
  or_false a b h = ground arith

  Now-close :
      (s : S) (fd : ℕ) (ds : List ℕ) (fs : List (List ℕ)) (s' : S)
      → Now s (fd ∷ ds) fs s'
      → Now s ds fs (os.close s' fd).1
  unfolding Now
  Now-close s fd ds fs s' now well =
      let (well', ok) = or_false _ _ (sym (laws.close_noted s' fd) ∙ well) in
      let (before, d, f) = now well' in
      let (d', f') = laws.closed s' fd ds ok d in (before, d', f' ∙ f)

  Now-unlink :
      (s : S) (name : List ℕ) (ds : List ℕ) (fs : List (List ℕ)) (s' : S)
      → Now s ds (name ∷ fs) s'
      → Now s ds fs (os.unlink s' name).1
  unfolding Now
  Now-unlink s name ds fs s' now well =
      let (well', ok) = or_false _ _ (sym (laws.unlink_noted s' name) ∙ well) in
      let (before, d, f) = now well' in
      let (f', d') = laws.unlinked s' name fs ok f in (before, d' ∙ d, f')

  -- unless a close or an unlink failed: what there was at `s`, and nothing else
  abbrev pub AsBefore : S → S → Type 0
  AsBefore s s' =
      r.failed s' ≡ false
      → (r.failed s ≡ false) × (r.descriptors s' ≡ r.descriptors s) × (r.files s' ≡ r.files s)

  -- the same at the end of the program, but for a descriptor if there is no mapping
  abbrev pub Ended : S → Failure → S → Type 0
  Ended s f s' =
      r.failed s' ≡ false
      → (r.failed s ≡ false)
        × (r.files s' ≡ r.files s)
        × ((r.descriptors s' ≡ r.descriptors s) ⊎ (f ≡ mmap_failed))

  -- one segment of so many bytes
  abbrev Tidy : ℕ → S → Outcome S Mapped → Type 0
  Tidy size s (fatal f s') = Ended s f s'
  Tidy size s (done m mask s') = AsBefore s s' × (m.size ≡ size)

  -- `s` is the state before the file was made
  abbrev with_fd : Option ℕ → List ℕ → List ℕ
  with_fd none ds = ds
  with_fd (some fd) ds = fd ∷ ds

  abbrev Opened : Option ℕ → S → S → Type 0
  Opened fd s s₁ = Now s (with_fd fd (r.descriptors s)) (r.files s) s₁

  close_file-AsBefore :
      (fd : Option ℕ) (s s₁ : S) → Opened fd s s₁ → AsBefore s (close_file os fd s₁)
  unfolding Now
  close_file-AsBefore none s s₁ o = o
  close_file-AsBefore (some fd) s s₁ o = Now-close s fd (r.descriptors s) (r.files s) s₁ o

  map_file-Tidy :
      (fd : Option ℕ) (mask : Option (List ℕ)) (size : ℕ) (s s₁ : S)
      → Opened fd s s₁
      → Tidy size s (map_file os fd mask size s₁)
  unfolding map_file Now
  map_file-Tidy fd mask size s s₁ o =
      let o' = Now-Same s _ _ s₁ (os.mmap s₁ size fd).1 o (laws.mapped s₁ size fd) in
      elim (Option-cases (os.mmap s₁ size fd).0) [
        | inl failed ↦
            rw (failed, Tidy, map_file)
              (λ well. let (before, d, f) = o' well in (before, f, inr refl))
        | inr (address, there) ↦ rw (there, Tidy, map_file) (close_file-AsBefore fd s _ o', refl)
      ]

  map_segment-Tidy :
      (mask : Option (List ℕ)) (size : ℕ) (s : S) → Tidy size s (map_segment os mask size s)
  unfolding map_segment Now
  map_segment-Tidy none size s = map_file-Tidy none none size s s (λ well. (well, refl, refl))
  map_segment-Tidy (some []) size s =
      map_file-Tidy none (some []) size s s (λ well. (well, refl, refl))
  map_segment-Tidy (some (x ∷ xs)) size s =
      let s₁ = (os.mkstemp s (x ∷ xs)).1 in
      elim (Option-cases (os.mkstemp s (x ∷ xs)).0) [
        | inl none_made ↦
            let (ds, fs, e) = laws.refused s (x ∷ xs) none_made in
            rw (none_made, Tidy, map_segment) (λ well. (sym e ∙ well, fs, inl ds))
        | inr ((fd, name), made) ↦
            let (ds, fs, e) = laws.created s (x ∷ xs) fd name made in
            let ds' : List ℕ = fd ∷ r.descriptors s in
            let s₂ = (os.ftruncate s₁ fd size).1 in
            let now : Now s ds' (name ∷ r.files s) s₂ =
              Now-Same s ds' (name ∷ r.files s) s₁ s₂ (λ well. (sym e ∙ well, ds, fs))
                (laws.truncated s₁ fd size) in
            elim (Bool-cases (os.ftruncate s₁ fd size).0) [
              | inl long ↦
                  rw (made, Tidy, map_segment, long)
                    (map_file-Tidy (some fd) (some name) size s (os.unlink s₂ name).1
                      (Now-unlink s name ds' (r.files s) s₂ now))
              | inr short ↦
                  let end =
                    Now-unlink s name (r.descriptors s) (r.files s) (os.close s₂ fd).1
                      (Now-close s fd (r.descriptors s) (name ∷ r.files s) s₂ now) in
                  rw (made, Tidy, map_segment, short)
                    (λ well. let (before, d, f) = end well in (before, f, inl d))
            ]
      ]

  module _ (num size : ℕ) where
    -- segments of the sizes of the rounds from `i` on
    abbrev pub Sized : ℕ → List Mapped → Type 0
    Sized i [] = Unit {0}
    Sized i (m ∷ ms) = (m.size ≡ size_of os num size i) × Sized (i + 1) ms

    -- all segments
    abbrev pub Left : ℕ → ℕ → S → Outcome S (List Mapped) → Type 0
    Left k i s (fatal f s') = Ended s f s'
    Left k i s (done ms mask s') = AsBefore s s' × (length ms ≡ k) × Sized i ms

    -- the rest of a round
    abbrev add : Mapped → Outcome S (List Mapped) → Outcome S (List Mapped)
    add m q = elim q [ fatal f s₂ ↦ fatal f s₂ | done ms last s₂ ↦ done (m ∷ ms) last s₂ ]

    abbrev after : ℕ → ℕ → Outcome S Mapped → Outcome S (List Mapped)
    after k i q = elim q [
      | fatal f s₁ ↦ fatal f s₁
      | done m used s₁ ↦
          add m (map_segments os num size k (i + 1) (if num == 1 then used else reset_mask used) s₁)
    ]

    add-Left :
        (k i : ℕ) (s s₁ : S) (m : Mapped) (q : Outcome S (List Mapped))
        → AsBefore s s₁
        → m.size ≡ size_of os num size i
        → Left k (i + 1) s₁ q
        → Left (suc k) i s (add m q)
    add-Left k i s s₁ m (fatal f s₂) b e l = λ well.
        let (well₁, fs, ds) = l well in
        let (before, ds₁, fs₁) = b well₁ in
        (before, fs ∙ fs₁, elim ds [ inl same ↦ inl (same ∙ ds₁) | inr it ↦ inr it ])
    add-Left k i s s₁ m (done ms last s₂) b e (l, count, sized) = (
      λ well.
          let (well₁, ds, fs) = l well in
          let (before, ds₁, fs₁) = b well₁ in (before, ds ∙ ds₁, fs ∙ fs₁),
      ap suc count,
      (e, sized),
    )

    after-Left :
        (k i : ℕ) (s : S) (q : Outcome S Mapped)
        → Tidy (size_of os num size i) s q
        → ((mask : Option (List ℕ)) (s₁ : S)
            → Left k (i + 1) s₁ (map_segments os num size k (i + 1) mask s₁))
        → Left (suc k) i s (after k i q)
    after-Left k i s (fatal f s₁) t rest = t
    after-Left k i s (done m used s₁) (b, e) rest = add-Left k i s s₁ m _ b e (rest _ s₁)

    -- If the calls for files and memory behave as their manuals say, then whatever they answer,
    -- mapping any number of segments leaves no temporary file unless a close or an unlink fails,
    -- and leaves no descriptor open unless one of these fails, or the mapping of memory fails and
    -- the program ends; and where it is done, there are as many segments as asked for, with the
    -- sizes of the segments and of that of the locks.
    pub map_segments-Left :
        (k i : ℕ) (mask : Option (List ℕ)) (s : S)
        → Left k i s (map_segments os num size k i mask s)
    unfolding map_segments
    map_segments-Left zero i mask s = ((λ well. (well, refl, refl)), refl, tt)
    map_segments-Left (suc k) i mask s =
        after-Left k i s (map_segment os mask (size_of os num size i) s)
          (map_segment-Tidy mask (size_of os num size i) s)
          (λ next s₁. map_segments-Left k (i + 1) next s₁)
