-- ===== src/Iterator/Ready.antt =====
-- What the methods of an iterator come to at any point of a loop, while the cache stays as it is.
use immutable_cache_pecl.Prelude.{
  ℕ, zero, suc, ◌+◌, ◌≤◌, ◌<◌, ◌≡◌, refl, sym, ap, ◌∙◌, Bool, true, false, List, [], ◌∷◌, ◌++◌,
  Option, none, some, length, length-append, map, ◌==◌, ◌%◌, ◌^◌, ltb, if_true, if_false, arith,
  inl, inr, Bool-cases, if◌then◌else◌,
}
use immutable_cache_pecl.Cache.Locks.{Grant, Process, rlock_global}
use immutable_cache_pecl.Cache.State.{Cache, Shm}
use immutable_cache_pecl.Iterator.{
  Item, Iterator, drop, stack_size, to_size, item_at, scan, fetch_active, refill, rewind, valid,
  current_item, next,
}
use immutable_cache_pecl.Stack.{create, pushes, get}
use immutable_cache_pecl.Stack.Pushed.{nth, get-pushes}
use immutable_cache_pecl.Iterator.Scan.{
  moved, drop-drop, all_items, scan-all_items, scan_empty, fetch_active-moved,
}

-- the item at an index, and those behind it
nth-drop :
    {A : Type 0}
    → (xs : List A) (n : ℕ) → n < length xs
    → (x : A) × (nth xs n ≡ some x) × (drop n xs ≡ x ∷ drop (suc n) xs)
nth-drop [] n l = absurd (omega arith)
nth-drop (x ∷ xs) zero l = (x, refl, refl)
nth-drop (x ∷ xs) (suc n) l = nth-drop xs n (omega arith)

length-map : {A B : Type 0} (f : A → B) (xs : List A) → length (map f xs) ≡ length xs
length-map f [] = refl
length-map f (x ∷ xs) = ap suc (length-map f xs)

nth-map :
    {A : Type 0} (xs : List A) (i : ℕ) (x : A)
    → nth xs i ≡ some x
    → nth (map some xs) i ≡ some (some x)
nth-map [] i x there = cc
nth-map (y ∷ ys) zero x there = ap some there
nth-map (y ∷ ys) (suc i) x there = nth-map ys i x there

abbrev join : {A : Type 0} → Option (Option A) → Option A
join q = elim q [ none ↦ none | some item ↦ item ]

-- the stack reads the item of an index
item_at-nth :
    {A : Type 0} (size_hint : ℕ) (xs : List A) (i : ℕ) (x : A)
    → size_hint < 2 ^ 61
    → length xs < 2 ^ 31
    → nth xs i ≡ some x
    → i < length xs
    → item_at size_hint xs (to_size i) ≡ some x
unfolding item_at
item_at-nth size_hint xs i x small few there l =
    let e : to_size i ≡ i = ground arith in
    let filled = pushes none (create none size_hint) (map some xs) in
    ap (λ n. join (get none filled n)) e
    ∙ ap join (
        get-pushes none size_hint (map some xs) i (some x) small (omega (arith, length-map some xs))
          (nth-map xs i x there))

drop_all : {A : Type 0} → (xs : List A) → drop (length xs) xs ≡ []
drop_all [] = refl
drop_all (x ∷ xs) = drop_all xs

module _ {V R W S : Type 0} (shm : Shm V R W S) (grant : Grant) (cache : Cache R W S) where
  -- what `valid` answers after the stack is filled
  abbrev answer : Bool × Iterator V × Process → Option Bool × Iterator V × Process
  answer q = (some (if stack_size q.1 == 0 then false else true), q.1, q.2)

  valid-answer :
      (p : Process) (iterator : Iterator V)
      → iterator.initialized ≡ true
      → valid shm grant cache p iterator ≡ answer (refill shm grant cache p iterator)
  unfolding valid
  valid-answer p iterator e = if_true iterator.initialized _ _ e

  refill_inside :
      (p : Process) (iterator : Iterator V)
      → (stack_size iterator == iterator.stack_idx) ≡ false
      → refill shm grant cache p iterator ≡ (true, iterator, p)
  unfolding refill
  refill_inside p iterator e = if_false (stack_size iterator == iterator.stack_idx) _ _ e

  refill_end :
      (p : Process) (iterator : Iterator V)
      → (stack_size iterator == iterator.stack_idx) ≡ true
      → refill shm grant cache p iterator
        ≡ (let f = fetch_active shm grant cache p iterator in (ltb 0 f.0, f.1, f.2))
  unfolding refill
  refill_end p iterator e = if_true (stack_size iterator == iterator.stack_idx) _ _ e

  module _ (it : Iterator V) (started : it.initialized ≡ true) (small : it.size_hint < 2 ^ 61)
      (p : Process) (granted : (rlock_global grant p).0 ≡ true) where
    -- what the iterator has not visited
    abbrev pub left : List (Item V) → ℕ → ℕ → List (Item V)
    left stack slot_idx stack_idx =
        drop stack_idx stack ++ all_items shm grant cache it (drop slot_idx cache.slots)

    -- what `valid` comes to: nothing is left, or the item of the index is the next one
    pub data Ready (stack : List (Item V)) (slot_idx stack_idx key_idx : ℕ) : Type 0 where
      over :
          (iterator : Iterator V)
          → valid shm grant cache p (moved it stack slot_idx stack_idx key_idx)
            ≡ (some false, iterator, p)
          → left stack slot_idx stack_idx ≡ []
          → Ready stack slot_idx stack_idx key_idx
      at_item :
          (item : Item V) (stack' : List (Item V)) (slot_idx' stack_idx' : ℕ)
          → length stack' < 2 ^ 31
          → valid shm grant cache p (moved it stack slot_idx stack_idx key_idx)
            ≡ (some true, moved it stack' slot_idx' stack_idx' key_idx, p)
          → stack_idx' < length stack'
          → nth stack' stack_idx' ≡ some item
          → left stack slot_idx stack_idx ≡ item ∷ left stack' slot_idx' (suc stack_idx')
          → Ready stack slot_idx stack_idx key_idx

    inside-Ready :
        (stack : List (Item V)) (slot_idx stack_idx key_idx : ℕ)
        → length stack < 2 ^ 31
        → stack_idx < length stack
        → Ready stack slot_idx stack_idx key_idx
    inside-Ready stack slot_idx stack_idx key_idx few l =
        let (x, there, rest) = nth-drop stack stack_idx l in
        let inside : (length stack % 2 ^ 32 == stack_idx) ≡ false = ground arith in
        let filled : (length stack % 2 ^ 32 == 0) ≡ false = ground arith in
        let iterator = moved it stack slot_idx stack_idx key_idx in
        at_item x stack slot_idx stack_idx few
          (valid-answer p iterator started
            ∙ ap answer (refill_inside p iterator inside)
            ∙ ap (λ b. (some (if b then false else true), iterator, p)) filled)
          l there (ap (λ xs. xs ++ all_items shm grant cache it (drop slot_idx cache.slots)) rest)

    -- `valid` at the end of the stack fetches another chunk
    valid-fetch :
        (stack : List (Item V)) (slot_idx stack_idx key_idx : ℕ)
        → length stack < 2 ^ 31
        → stack_idx ≡ length stack
        → valid shm grant cache p (moved it stack slot_idx stack_idx key_idx) ≡ (
            let q = scan shm grant cache it 0 (drop slot_idx cache.slots) in
            (
              some (if length q.0 % 2 ^ 32 == 0 then false else true),
              moved it q.0 (slot_idx + q.1) 0 key_idx,
              p,
            ))
    valid-fetch stack slot_idx stack_idx key_idx few e =
        let iterator = moved it stack slot_idx stack_idx key_idx in
        valid-answer p iterator started
        ∙ ap answer (refill_end p iterator (ground arith))
        ∙ ap (λ f. answer (ltb 0 f.0, f.1, f.2))
            (fetch_active-moved shm grant cache it p stack slot_idx stack_idx key_idx granted)

    fetched_left :
        (stack : List (Item V)) (slot_idx stack_idx : ℕ)
        → stack_idx ≡ length stack
        → left stack slot_idx stack_idx
          ≡ left
              (scan shm grant cache it 0 (drop slot_idx cache.slots)).0
              (slot_idx + (scan shm grant cache it 0 (drop slot_idx cache.slots)).1)
              0
    fetched_left stack slot_idx stack_idx e =
        let q = scan shm grant cache it 0 (drop slot_idx cache.slots) in
        let rest = all_items shm grant cache it (drop slot_idx cache.slots) in
        ap (λ l. l ++ rest) (ap (λ n. drop n stack) e ∙ drop_all stack)
        ∙ sym (scan-all_items shm grant cache it 0 (drop slot_idx cache.slots))
        ∙ ap (λ cs. q.0 ++ all_items shm grant cache it cs) (drop-drop slot_idx q.1 cache.slots)

    -- a chunk is a part of what is left
    pub scan-few :
        (slot_idx : ℕ)
        → length (all_items shm grant cache it (drop slot_idx cache.slots)) < 2 ^ 31
        → length (scan shm grant cache it 0 (drop slot_idx cache.slots)).0 < 2 ^ 31
    scan-few slot_idx fit =
        let q = scan shm grant cache it 0 (drop slot_idx cache.slots) in
        let more = all_items shm grant cache it (drop q.1 (drop slot_idx cache.slots)) in
        omega (
          arith,
          length-append q.0 more,
          ap length (scan-all_items shm grant cache it 0 (drop slot_idx cache.slots)),
        )

    end-Ready :
        (stack : List (Item V)) (slot_idx stack_idx key_idx : ℕ)
        → length stack < 2 ^ 31
        → length (all_items shm grant cache it (drop slot_idx cache.slots)) < 2 ^ 31
        → stack_idx ≡ length stack
        → Ready stack slot_idx stack_idx key_idx
    end-Ready stack slot_idx stack_idx key_idx few fit e =
        let q = scan shm grant cache it 0 (drop slot_idx cache.slots) in
        let rest = all_items shm grant cache it (drop slot_idx cache.slots) in
        let fewer : length q.0 < 2 ^ 31 = scan-few slot_idx fit in
        elim (Bool-cases (length q.0 % 2 ^ 32 == 0)) [
          | inl nothing_left ↦
              over _
                (valid-fetch stack slot_idx stack_idx key_idx few e
                  ∙ ap
                      (λ b. (
                        some (if b then false else true),
                        moved it q.0 (slot_idx + q.1) 0 key_idx,
                        p,
                      ))
                      nothing_left)
                (ap (λ l. l ++ rest) (ap (λ n. drop n stack) e ∙ drop_all stack)
                  ∙ scan_empty shm grant cache it (drop slot_idx cache.slots)
                      (ground (arith, fewer)))
          | inr filled ↦
              let l : 0 < length q.0 = ground arith in
              let (x, there, behind) = nth-drop q.0 0 l in
              at_item x q.0 (slot_idx + q.1) 0 fewer
                (valid-fetch stack slot_idx stack_idx key_idx few e
                  ∙ ap
                      (λ b. (
                        some (if b then false else true),
                        moved it q.0 (slot_idx + q.1) 0 key_idx,
                        p,
                      ))
                      filled)
                l there
                (fetched_left stack slot_idx stack_idx e
                  ∙ ap
                      (λ xs. xs ++ all_items shm grant cache it (drop (slot_idx + q.1) cache.slots))
                      behind)
        ]

    pub valid-Ready :
        (stack : List (Item V)) (slot_idx stack_idx key_idx : ℕ)
        → length stack < 2 ^ 31
        → length (all_items shm grant cache it (drop slot_idx cache.slots)) < 2 ^ 31
        → stack_idx ≤ length stack
        → Ready stack slot_idx stack_idx key_idx
    valid-Ready stack slot_idx stack_idx key_idx few fit l =
        elim (Bool-cases (ltb stack_idx (length stack))) [
          | inl below ↦ inside-Ready stack slot_idx stack_idx key_idx few (ground arith)
          | inr at_end ↦ end-Ready stack slot_idx stack_idx key_idx few fit (ground arith)
        ]

    -- the other methods, at an item
    pub item_here :
        (stack : List (Item V)) (slot_idx stack_idx key_idx : ℕ) (item : Item V)
        → length stack < 2 ^ 31
        → stack_idx < length stack
        → nth stack stack_idx ≡ some item
        → current_item shm grant cache p (moved it stack slot_idx stack_idx key_idx)
          ≡ (some item, moved it stack slot_idx stack_idx key_idx, p)
    unfolding current_item
    item_here stack slot_idx stack_idx key_idx item few l there =
        let iterator = moved it stack slot_idx stack_idx key_idx in
        let inside : (length stack % 2 ^ 32 == stack_idx) ≡ false = ground arith in
        if_true it.initialized _ _ started
        ∙ ap
            (λ q.
              if q.0
              then (item_at q.1.size_hint q.1.stack (to_size q.1.stack_idx), q.1, q.2)
              else (none, q.1, q.2))
            (refill_inside p iterator inside)
        ∙ ap (λ i. (i, iterator, p))
            (item_at-nth it.size_hint stack stack_idx item small few there l)

    pub next_here :
        (stack : List (Item V)) (slot_idx stack_idx key_idx : ℕ)
        → length stack < 2 ^ 31
        → stack_idx < length stack
        → (next shm grant (moved it stack slot_idx stack_idx key_idx)).1
          ≡ moved it stack slot_idx (suc stack_idx) (suc key_idx)
    unfolding next
    next_here stack slot_idx stack_idx key_idx few l =
        let filled : (length stack % 2 ^ 32 == 0) ≡ false = ground arith in
        ap (λ (q : Bool × Iterator V). q.1)
          (if_true it.initialized _ _ started ∙ if_false (length stack % 2 ^ 32 == 0) _ _ filled)
        ∙ ap (λ n. moved it stack slot_idx n (suc key_idx)) (omega arith)

    pub rewind-moved : rewind shm grant cache p it ≡ (
        let q = scan shm grant cache it 0 cache.slots in (some true, moved it q.0 (0 + q.1) 0 0, p))
    unfolding rewind
    rewind-moved =
        if_true it.initialized _ _ started
        ∙ ap (λ (f : ℕ × Iterator V × Process). (some true, f.1, f.2))
            (fetch_active-moved shm grant cache it p it.stack 0 0 0 granted)
