-- ===== src/Cache/Listing.antt =====
-- What the loops of `immutable_cache_cache_info` collect from the chains.
use immutable_cache_pecl.Prelude.{
  ℕ, zero, suc, ◌+◌, ◌%◌, ◌≡◌, refl, ap, ◌⊎◌, false, List, [], ◌∷◌, ◌++◌, none, some, arith, length,
  length-append, get_or, ◌==◌, Bool-cases, inl, inr,
}
use immutable_cache_pecl.Cache.Entry.{Entry, key_equals}
use immutable_cache_pecl.Cache.Slots.{find_in}
use immutable_cache_pecl.Cache.Operations.{LinkInfo, link_info, chain_infos, slot_infos}
use immutable_cache_pecl.Cache.Chains.{
  Frozen, frozen, key_equals-eq, key_equals_self, key_equals_symm,
}
use immutable_cache_pecl.Cache.View.{IsHome, entries}

abbrev pub All : {A : Type 0} → (A → Type 0) → List A → Type 0
All P [] = Unit {0}
All P (x ∷ xs) = P x × All P xs

abbrev pub Any : {A : Type 0} → (A → Type 0) → List A → Type 0
Any P [] = ⊥
Any P (x ∷ xs) = P x ⊎ Any P xs

-- the sum of the counts of `slot_distribution`
abbrev pub spread_total : List (ℕ × ℕ) → ℕ
spread_total [] = 0
spread_total ((i, n) ∷ rest) = n + spread_total rest

module _ {A : Type 0} where
  All-append : (P : A → Type 0) (xs ys : List A) → All P xs → All P ys → All P (xs ++ ys)
  All-append P [] ys hx hy = hy
  All-append P (x ∷ xs) ys hx hy = (hx.0, All-append P xs ys hx.1 hy)

  Any-append_left : (P : A → Type 0) (xs ys : List A) → Any P xs → Any P (xs ++ ys)
  Any-append_left P [] ys h = absurd h
  Any-append_left P (x ∷ xs) ys (inl h) = inl h
  Any-append_left P (x ∷ xs) ys (inr h) = inr (Any-append_left P xs ys h)

  Any-append_right : (P : A → Type 0) (xs ys : List A) → Any P ys → Any P (xs ++ ys)
  Any-append_right P [] ys h = h
  Any-append_right P (x ∷ xs) ys h = inr (Any-append_right P xs ys h)

-- The statistics of an entry in the view.
pub record Tells {W : Type 0} (f : Frozen W) (li : LinkInfo) : Type 0 where
  pub info : li.info ≡ f.key.val
  pub creation_time : li.creation_time ≡ f.ctime
  pub mem_size : li.mem_size ≡ f.mem_size

module _ {W : Type 0} where
  missed :
      (es : List (Entry W)) (key : List ℕ) (h : ℕ)
      → find_in es key h ≡ none
      → All (λ x. key_equals x key h ≡ false) es
  unfolding find_in
  missed [] key h p = tt
  missed (e ∷ es) key h p = elim (Bool-cases (key_equals e key h)) [
    | inl hit ↦ absurd (ground arith)
    | inr miss ↦ (miss, missed es key h (ground arith))
  ]

  -- an entry in front that matches none of the others hides none of them
  unhidden :
      (e : Entry W) (es rest : List (Entry W))
      → All (λ x. key_equals x e.key.val e.key.h ≡ false) rest
      → All (λ x. find_in es x.key.val x.key.h ≡ some x) rest
      → All (λ x. find_in (e ∷ es) x.key.val x.key.h ≡ some x) rest
  unfolding find_in
  unhidden e es [] apart found = tt
  unhidden e es (x ∷ rest) apart found =
      (rw (key_equals_symm e x, apart.0) found.0, unhidden e es rest apart.1 found.1)

  module _ (hash : List ℕ → ℕ) (n i : ℕ) where
    -- every entry of a chain in order is found by its own key
    pub IsHome-found :
        (es : List (Entry W))
        → IsHome hash n i es
        → All (λ x. find_in es x.key.val x.key.h ≡ some x) es
    unfolding find_in
    IsHome-found [] home = tt
    IsHome-found (e ∷ es) home = (
      rw (key_equals_self e e.key.val e.key.h refl refl),
      unhidden e es es (missed es e.key.val e.key.h home.2) (IsHome-found es home.3),
    )

    pub IsHome-hashed :
        (es : List (Entry W))
        → IsHome hash n i es
        → All (λ x. (x.key.h ≡ hash x.key.val) × (x.key.h % n ≡ i)) es
    IsHome-hashed [] home = tt
    IsHome-hashed (e ∷ es) home = ((home.0, home.1), IsHome-hashed es home.3)

  pub infos-All :
      (A B : Entry W → Type 0) (P : LinkInfo → Type 0)
      → ((x : Entry W) → A x → B x → P (link_info x))
      → (es : List (Entry W)) → All A es
      → All B es
      → All P (chain_infos es)
  unfolding chain_infos
  infos-All A B P step [] a b = tt
  infos-All A B P step (e ∷ es) a b = (step e a.0 b.0, infos-All A B P step es a.1 b.1)

  pub infos-Any :
      (es : List (Entry W)) (key : List ℕ) (h : ℕ) (e : Entry W)
      → find_in es key h ≡ some e
      → Any (λ li. (li.info ≡ key) × Tells (frozen e) li) (chain_infos es)
  unfolding chain_infos find_in link_info
  infos-Any [] key h e found = cc
  infos-Any (x ∷ es) key h e found = elim (Bool-cases (key_equals x key h)) [
    | inl hit ↦
        let same : x ≡ e = ground arith in
        inl (
          (key_equals-eq x key h hit).1,
          record {
            info = ap (λ (y : Entry W). y.key.val) same;
            creation_time = ap Entry.ctime same;
            mem_size = ap Entry.mem_size same;
          },
        )
    | inr miss ↦ inr (infos-Any es key h e (ground arith))
  ]

  length-chain_infos : (es : List (Entry W)) → length (chain_infos es) ≡ length es
  unfolding chain_infos
  length-chain_infos [] = refl
  length-chain_infos (e ∷ es) = ap suc (length-chain_infos es)

  pub slot_infos-counts :
      (i : ℕ) (cs : List (List (Entry W)))
      → (length (slot_infos i cs).0 ≡ entries cs) × (spread_total (slot_infos i cs).1 ≡ entries cs)
  unfolding slot_infos
  slot_infos-counts i [] = (refl, refl)
  slot_infos-counts i (c ∷ cs) =
      let rest = slot_infos-counts (i + 1) cs in
      (
        omega
            (arith, length-append (chain_infos c) (slot_infos (i + 1) cs).0, length-chain_infos c),
        elim (Bool-cases (length c == 0)) [
          | inl empty ↦ rw empty (ground arith)
          | inr full ↦ rw full (omega arith)
        ],
      )

  pub slot_infos-All :
      (P : LinkInfo → Type 0) (i : ℕ) (cs : List (List (Entry W)))
      → ((j : ℕ) → All P (chain_infos (get_or cs j [])))
      → All P (slot_infos i cs).0
  unfolding slot_infos
  slot_infos-All P i [] every = tt
  slot_infos-All P i (c ∷ cs) every =
      All-append P (chain_infos c) (slot_infos (i + 1) cs).0 (every 0)
        (slot_infos-All P (i + 1) cs (λ j. every (suc j)))

  pub slot_infos-Any :
      (P : LinkInfo → Type 0) (i j : ℕ) (cs : List (List (Entry W)))
      → Any P (chain_infos (get_or cs j []))
      → Any P (slot_infos i cs).0
  unfolding slot_infos chain_infos
  slot_infos-Any P i j [] some_one = absurd some_one
  slot_infos-Any P i zero (c ∷ cs) some_one =
      Any-append_left P (chain_infos c) (slot_infos (i + 1) cs).0 some_one
  slot_infos-Any P i (suc j) (c ∷ cs) some_one =
      Any-append_right P (chain_infos c) (slot_infos (i + 1) cs).0
        (slot_infos-Any P (i + 1) j cs some_one)
