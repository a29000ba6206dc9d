-- ===== src/Cache/View.antt =====
-- The abstract view of a cache, a partial map from keys to frozen entries, and the invariant of
-- the representation.
use mathlib.Core.Option.{or_else}
use mathlib.Core.Path.{subst}
use immutable_cache_pecl.Prelude.{
  ℕ, zero, suc, ◌+◌, ◌%◌, ◌^◌, ◌<◌, ◌≡◌, refl, ◌∙◌, List, [], ◌∷◌, Option, none, some, arith,
  length, get_or, set, Bool-cases, Option-cases, inl, inr,
}
use immutable_cache_pecl.Cache.Entry.{Entry, key_equals}
use immutable_cache_pecl.Cache.State.{Cache, Shm}
use immutable_cache_pecl.Cache.Slots.{find_in, link, touch_in, rlocked_find_nostat}
use immutable_cache_pecl.Cache.Chains.{
  Frozen, frozen?, key_equals_symm, find_in-link, find_in-touch_in,
}

module _ {W : Type 0} where
  -- each entry stands in its home slot, under the hash of its key, and no key occurs twice
  abbrev pub IsHome : (List ℕ → ℕ) → ℕ → ℕ → List (Entry W) → Type 0
  IsHome hash n i [] = Unit {0}
  IsHome hash n i (e ∷ es) =
      (e.key.h ≡ hash e.key.val)
      × (e.key.h % n ≡ i)
      × (find_in es e.key.val e.key.h ≡ none)
      × IsHome hash n i es

  abbrev pub entries : List (List (Entry W)) → ℕ
  entries [] = 0
  entries (c ∷ cs) = length c + entries cs

  abbrev pub chain_mem : List (Entry W) → ℕ
  chain_mem [] = 0
  chain_mem (e ∷ es) = e.mem_size + chain_mem es

  abbrev pub slots_mem : List (List (Entry W)) → ℕ
  slots_mem [] = 0
  slots_mem (c ∷ cs) = chain_mem c + slots_mem cs

  pub entries-set :
      (cs : List (List (Entry W))) (i : ℕ) (c : List (Entry W))
      → i < length cs
      → entries (set cs i c) + length (get_or cs i []) ≡ entries cs + length c
  entries-set [] i c h = absurd (omega arith)
  entries-set (x ∷ cs) zero c h = omega arith
  entries-set (x ∷ cs) (suc i) c h = omega (arith, entries-set cs i c (omega arith))

  pub slots_mem-set :
      (cs : List (List (Entry W))) (i : ℕ) (c : List (Entry W))
      → i < length cs
      → slots_mem (set cs i c) + chain_mem (get_or cs i []) ≡ slots_mem cs + chain_mem c
  slots_mem-set [] i c h = absurd (omega arith)
  slots_mem-set (x ∷ cs) zero c h = omega arith
  slots_mem-set (x ∷ cs) (suc i) c h = omega (arith, slots_mem-set cs i c (omega arith))

  pub length-link :
      (es es' : List (Entry W)) (new : Entry W) (key : List ℕ) (h : ℕ)
      → link es new key h ≡ some es'
      → (length es' ≡ length es + 1) × (chain_mem es' ≡ chain_mem es + new.mem_size)
  unfolding link
  length-link [] es' new key h p = ground arith
  length-link (e ∷ es) es' new key h p = elim (Option-cases (link es new key h)) [
    | inl stop ↦ absurd (ground arith)
    | inr (rest, more) ↦ ground (arith, length-link es rest new key h)
  ]

  pub length-touch_in :
      (es : List (Entry W)) (key : List ℕ) (h t : ℕ)
      → (length (touch_in es key h t) ≡ length es)
        × (chain_mem (touch_in es key h t) ≡ chain_mem es)
  unfolding touch_in
  length-touch_in [] key h t = (refl, refl)
  length-touch_in (e ∷ es) key h t = ground (arith, length-touch_in es key h t)

  none_of_frozen? : (a b : Option (Entry W)) → frozen? a ≡ frozen? b → b ≡ none → a ≡ none
  none_of_frozen? none b p q = refl
  none_of_frozen? (some e) none p q = cc
  none_of_frozen? (some e) (some x) p q = cc

  module _ (hash : List ℕ → ℕ) (n i : ℕ) where
    pub IsHome-link :
        (es es' : List (Entry W)) (new : Entry W)
        → link es new new.key.val new.key.h ≡ some es'
        → new.key.h ≡ hash new.key.val
        → new.key.h % n ≡ i
        → IsHome hash n i es
        → IsHome hash n i es'
    unfolding link find_in or_else
    IsHome-link [] es' new p hashed placed home =
        let e : new ∷ [] ≡ es' = cc in subst (IsHome hash n i) e (hashed, placed, refl, tt)
    IsHome-link (e ∷ es) es' new p hashed placed home =
        elim (Bool-cases (key_equals e new.key.val new.key.h)) [
          | inl hit ↦ absurd (ground arith)
          | inr miss ↦ elim (Option-cases (link es new new.key.val new.key.h)) [
            | inl stop ↦ absurd (ground arith)
            | inr (rest, more) ↦
                let eq : e ∷ rest ≡ es' = ground arith in
                let alone : find_in rest e.key.val e.key.h ≡ none =
                  find_in-link es rest new _ _ e.key.val e.key.h more
                  ∙ rw (home.2, key_equals_symm new e, miss, or_else) in
                subst (IsHome hash n i) eq
                  (home.0, home.1, alone, IsHome-link es rest new more hashed placed home.3)
          ]
        ]

    pub IsHome-touch_in :
        (es : List (Entry W)) (key : List ℕ) (h t : ℕ)
        → IsHome hash n i es
        → IsHome hash n i (touch_in es key h t)
    unfolding touch_in
    IsHome-touch_in [] key h t home = tt
    IsHome-touch_in (e ∷ es) key h t home = elim (Bool-cases (key_equals e key h)) [
      | inl hit ↦ rw hit home
      | inr miss ↦ rw miss (
        home.0,
        home.1,
        none_of_frozen? _ _ (find_in-touch_in es key h t e.key.val e.key.h) home.2,
        IsHome-touch_in es key h t home.3,
      )
    ]

module _ {V R W S : Type 0} (shm : Shm V R W S) where
  -- what the cache holds under a key
  unfoldable pub view : Cache R W S → List ℕ → Option (Frozen W)
  view c key = frozen? (rlocked_find_nostat shm c key)

  -- Every entry is found by its key, and the header counts the entries and their memory.
  pub record IsValid (c : Cache R W S) : Type 0 where
    pub width : length c.slots ≡ c.nslots
    pub positive : 0 < c.nslots
    pub placed : (i : ℕ) → IsHome shm.hash c.nslots i (get_or c.slots i [])
    pub counted : c.header.nentries ≡ entries c.slots % 2 ^ 64
    pub inserted : c.header.ninserts ≡ c.header.nentries
    pub used : c.header.mem_size ≡ slots_mem c.slots % 2 ^ 64
