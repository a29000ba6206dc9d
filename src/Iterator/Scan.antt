-- ===== src/Iterator/Scan.antt =====
-- What a fetch of a chunk pushes, against the items of all the slots.
use immutable_cache_pecl.Prelude.{
  ℕ, zero, suc, ◌+◌, ◌≡◌, refl, sym, ap, ◌∙◌, true, List, [], ◌∷◌, ◌++◌, length, leb, arith, inl,
  inr, Bool-cases,
}
use immutable_cache_pecl.Cache.Entry.{Entry}
use immutable_cache_pecl.Cache.Locks.{Grant, Process, rlock_global}
use immutable_cache_pecl.Cache.Balance.{runlock_global-rlock_global}
use immutable_cache_pecl.Cache.State.{Cache, Shm}
use immutable_cache_pecl.Iterator.{
  Item, Iterator, drop, chain_items, scan, fetch_active, search_match, item_ctor,
}

-- the iterator at another place
abbrev pub moved : {V : Type 0} → Iterator V → List (Item V) → ℕ → ℕ → ℕ → Iterator V
moved it stack slot_idx stack_idx key_idx = record it {
  stack = stack;
  slot_idx = slot_idx;
  stack_idx = stack_idx;
  key_idx = key_idx;
}

append_assoc : {A : Type 0} → (xs ys zs : List A) → (xs ++ ys) ++ zs ≡ xs ++ (ys ++ zs)
append_assoc [] ys zs = refl
append_assoc (x ∷ xs) ys zs = ap (λ l. x ∷ l) (append_assoc xs ys zs)

pub nil-append : {A : Type 0} → (xs ys : List A) → length (xs ++ ys) ≡ 0 → (xs ≡ []) × (ys ≡ [])
nil-append [] [] e = (refl, refl)
nil-append [] (y ∷ ys) e = absurd (omega arith)
nil-append (x ∷ xs) ys e = absurd (omega arith)

drop_nil : {A : Type 0} → (n : ℕ) → drop {A = A} n [] ≡ []
drop_nil zero = refl
drop_nil (suc n) = refl

pub drop-drop : {A : Type 0} → (m n : ℕ) (xs : List A) → drop n (drop m xs) ≡ drop (m + n) xs
drop-drop zero n xs = ap (λ k. drop k xs) (omega arith)
drop-drop (suc m) n [] = drop_nil n ∙ sym (drop_nil (suc m + n))
drop-drop (suc m) n (x ∷ xs) =
    let one_more : suc (m + n) ≡ suc m + n = omega arith in
    drop-drop m n xs ∙ ap (λ k. drop k (x ∷ xs)) one_more

module _ {V R W S : Type 0} (shm : Shm V R W S) (grant : Grant) (cache : Cache R W S)
    (it : Iterator V) where
  -- the items of all slots, in order
  unfoldable pub all_items : List (List (Entry W)) → List (Item V)
  all_items [] = []
  all_items (c ∷ cs) = chain_items shm grant cache it c ++ all_items cs

  module _ (stack : List (Item V)) (slot_idx stack_idx key_idx : ℕ) where
    chain_items-moved :
        (es : List (Entry W))
        → chain_items shm grant cache (moved it stack slot_idx stack_idx key_idx) es
          ≡ chain_items shm grant cache it es
    unfolding chain_items search_match item_ctor
    chain_items-moved [] = refl
    chain_items-moved (e ∷ es) = rw (chain_items-moved es) refl

    pub scan-moved :
        (count : ℕ) (cs : List (List (Entry W)))
        → scan shm grant cache (moved it stack slot_idx stack_idx key_idx) count cs
          ≡ scan shm grant cache it count cs
    unfolding scan
    scan-moved count [] = refl
    scan-moved count (c ∷ cs) =
        rw (chain_items-moved c, scan-moved (count + length (chain_items shm grant cache it c)) cs)
          refl

  -- what is pushed, and what is left
  pub scan-all_items :
      (count : ℕ) (cs : List (List (Entry W)))
      → (scan shm grant cache it count cs).0
          ++ all_items (drop (scan shm grant cache it count cs).1 cs)
        ≡ all_items cs
  unfolding scan all_items
  scan-all_items count [] = refl
  scan-all_items count (c ∷ cs) = elim (Bool-cases (leb count it.chunk_size)) [
    | inl room ↦
        let items = chain_items shm grant cache it c in
        rw room
          (append_assoc items _ _ ∙ ap (λ l. items ++ l) (scan-all_items (count + length items) cs))
    | inr full ↦ rw full refl
  ]

  scan_room :
      (count : ℕ) (c : List (Entry W)) (cs : List (List (Entry W)))
      → leb count it.chunk_size ≡ true
      → scan shm grant cache it count (c ∷ cs) ≡ (
        chain_items shm grant cache it c
            ++ (scan shm grant cache it (count + length (chain_items shm grant cache it c)) cs).0,
        suc (scan shm grant cache it (count + length (chain_items shm grant cache it c)) cs).1,
      )
  unfolding scan
  scan_room count c cs room = rw room refl

  pub scan_empty :
      (cs : List (List (Entry W))) → length (scan shm grant cache it 0 cs).0 ≡ 0 → all_items cs ≡ []
  unfolding scan all_items
  scan_empty [] e = refl
  scan_empty (c ∷ cs) e =
      let items = chain_items shm grant cache it c in
      let (none_here, none_more) =
        nil-append items (scan shm grant cache it (0 + length items) cs).0
          (sym (ap (λ q. length q.0) (scan_room 0 c cs (ground arith))) ∙ e) in
      let no_more : length (scan shm grant cache it 0 cs).0 ≡ 0 =
        ap (λ l. length (scan shm grant cache it (0 + length l) cs).0) (sym none_here)
        ∙ ap length none_more in
      ap (λ l. l ++ all_items cs) none_here ∙ scan_empty cs no_more

  -- a fetch that is granted its lock
  pub fetch_active-moved :
      (p : Process) (stack : List (Item V)) (slot_idx stack_idx key_idx : ℕ)
      → (rlock_global grant p).0 ≡ true
      → fetch_active shm grant cache p (moved it stack slot_idx stack_idx key_idx) ≡ (
        length (scan shm grant cache it 0 (drop slot_idx cache.slots)).0,
        moved it
            (scan shm grant cache it 0 (drop slot_idx cache.slots)).0
            (slot_idx + (scan shm grant cache it 0 (drop slot_idx cache.slots)).1)
            0
            key_idx,
        p,
      )
  unfolding fetch_active
  fetch_active-moved p stack slot_idx stack_idx key_idx granted =
      let there = scan-moved [] slot_idx stack_idx key_idx 0 (drop slot_idx cache.slots) in
      rw (granted, there, (runlock_global-rlock_global grant p).0 granted) refl
