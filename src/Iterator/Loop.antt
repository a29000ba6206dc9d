-- ===== src/Iterator/Loop.antt =====
-- A `foreach` loop over an iterator, while the cache stays as it is.
use immutable_cache_pecl.Prelude.{
  ℕ, zero, suc, ◌+◌, ◌≤◌, ◌<◌, ◌≡◌, sym, ap, ◌∙◌, Bool, true, false, List, [], ◌∷◌, ◌++◌, map,
  Option, none, some, length, length-append, ◌^◌, arith,
}
use immutable_cache_pecl.Cache.Entry.{ZendString}
use immutable_cache_pecl.Cache.Locks.{Grant, Process, rlock_global}
use immutable_cache_pecl.Cache.State.{Cache, Shm}
use immutable_cache_pecl.Iterator.{
  Field, Item, Iterator, drop, scan, rewind, valid, current_item, current, key_of, next,
}
use immutable_cache_pecl.Stack.Pushed.{nth}
use immutable_cache_pecl.Iterator.Scan.{moved, drop-drop, all_items, scan-all_items}
use immutable_cache_pecl.Iterator.Ready.{
  left, scan-few, valid-Ready, item_here, next_here, rewind-moved, over, at_item,
}

-- one round of the loop
abbrev visit : {A B : Type 0} → Option A → Option B → Option (List (A × B)) → Option (List (A × B))
visit (some k) (some v) (some vs) = some ((k, v) ∷ vs)
visit _ _ _ = none

abbrev pub seen_as : {V : Type 0} → Item V → ZendString × List (Field V)
seen_as i = (i.key, i.value)

module _ {V R W S : Type 0} (shm : Shm V R W S) (grant : Grant) (cache : Cache R W S) where
  -- The calls that PHP makes for a `foreach` with keys after it has rewound the iterator; `none` if
  -- the fuel runs out or a method throws.
  unfoldable pub visits : ℕ → Process → Iterator V → Option (List (ZendString × List (Field V)))
  visits zero p iterator = none
  visits (suc fuel) p iterator =
      let (there, it₁, p₁) = valid shm grant cache p iterator in
      let (value, it₂, p₂) = current shm grant cache p₁ it₁ in
      let (key, it₃, p₃) = key_of shm grant cache p₂ it₂ in
      let rest = visits fuel p₃ (next shm grant it₃).1 in
      elim there [ none ↦ none | some false ↦ some [] | some true ↦ visit key value rest ]

  unfoldable pub foreach : ℕ → Process → Iterator V → Option (List (ZendString × List (Field V)))
  unfolding visits
  foreach fuel p iterator =
      let (done, it, p₁) = rewind shm grant cache p iterator in visits fuel p₁ it

  module _ (it : Iterator V) (started : it.initialized ≡ true) (small : it.size_hint < 2 ^ 61)
      (p : Process) (granted : (rlock_global grant p).0 ≡ true) where
    -- one round of the loop, from what `valid` and the other methods return
    abbrev round_value : Option (Item V) → Option (List (Field V))
    round_value item = elim item [ none ↦ none | some i ↦ some i.value ]

    abbrev round_key : Option (Item V) → Option ZendString
    round_key item = elim item [ none ↦ none | some i ↦ some i.key ]

    visits-item :
        (fuel : ℕ) (stack : List (Item V)) (slot_idx stack_idx key_idx : ℕ) (item : Item V)
        → (iterator : Iterator V)
        → valid shm grant cache p iterator
          ≡ (some true, moved it stack slot_idx stack_idx key_idx, p)
        → length stack < 2 ^ 31
        → stack_idx < length stack
        → nth stack stack_idx ≡ some item
        → visits (suc fuel) p iterator
          ≡ visit
              (some item.key)
              (some item.value)
              (visits fuel p (moved it stack slot_idx (suc stack_idx) (suc key_idx)))
    unfolding visits current key_of
    visits-item fuel stack slot_idx stack_idx key_idx item iterator is few l there =
        let here =
          item_here shm grant cache it started small p granted stack slot_idx stack_idx key_idx item
            few l there in
        ap
          (λ (v : Option Bool × Iterator V × Process).
            let c = current_item shm grant cache v.2 v.1 in
            let k = current_item shm grant cache c.2 c.1 in
            elim v.0 as (λ _. Option (List (ZendString × List (Field V)))) [
              | none ↦ none
              | some false ↦ some []
              | some true ↦
                  visit (round_key k.0) (round_value c.0) (visits fuel k.2 (next shm grant k.1).1)
            ])
          is
        ∙ ap
            (λ (c : Option (Item V) × Iterator V × Process).
              let k = current_item shm grant cache c.2 c.1 in
              visit (round_key k.0) (round_value c.0) (visits fuel k.2 (next shm grant k.1).1))
            here
        ∙ ap
            (λ (k : Option (Item V) × Iterator V × Process).
              visit (round_key k.0) (some item.value) (visits fuel k.2 (next shm grant k.1).1))
            here
        ∙ ap (λ i. visit (some item.key) (some item.value) (visits fuel p i))
            (next_here shm grant cache it started small p granted stack slot_idx stack_idx key_idx
              few l)

    visits-left :
        (fuel : ℕ) (stack : List (Item V)) (slot_idx stack_idx key_idx : ℕ)
        → length stack < 2 ^ 31
        → length (left shm grant cache it started small p granted stack slot_idx stack_idx) < 2 ^ 31
        → stack_idx ≤ length stack
        → length (left shm grant cache it started small p granted stack slot_idx stack_idx) < fuel
        → visits fuel p (moved it stack slot_idx stack_idx key_idx)
          ≡ some (
              map seen_as
                (left shm grant cache it started small p granted stack slot_idx stack_idx))
    unfolding visits
    visits-left zero stack slot_idx stack_idx key_idx few fit l enough = absurd (omega arith)
    visits-left (suc fuel) stack slot_idx stack_idx key_idx few fit l enough =
        let rest = all_items shm grant cache it (drop slot_idx cache.slots) in
        let fit' : length rest < 2 ^ 31 =
          omega (arith, length-append (drop stack_idx stack) rest) in
        elim (valid-Ready shm grant cache it started small p granted stack slot_idx stack_idx
          key_idx few fit' l) [
            | over iterator v nothing ↦
                ap
                  (λ (v : Option Bool × Iterator V × Process).
                    let c = current shm grant cache v.2 v.1 in
                    let k = key_of shm grant cache c.2 c.1 in
                    elim v.0 as (λ _. Option (List (ZendString × List (Field V)))) [
                      | none ↦ none
                      | some false ↦ some []
                      | some true ↦ visit k.0 c.0 (visits fuel k.2 (next shm grant k.1).1)
                    ])
                  v
                ∙ ap (λ xs. some (map seen_as xs)) (sym nothing)
            | at_item item stack' slot_idx' stack_idx' few' v l' there same ↦
                let fewer : length (
                      left shm grant cache it started small p granted stack' slot_idx'
                        (suc stack_idx'))
                    < fuel =
                  omega (arith, ap length same) in
                visits-item fuel stack' slot_idx' stack_idx' key_idx item _ v few' l' there
                ∙ ap (visit (some item.key) (some item.value)) (
                    visits-left fuel stack' slot_idx' (suc stack_idx') (suc key_idx) few'
                      (omega (arith, fit, fewer, ap length same)) (omega arith) fewer)
                ∙ ap (λ xs. some (map seen_as xs)) (sym same)
          ]

    -- If an iterator is initialized, its stack was created for fewer than 2^61 items, the global
    -- read lock is granted, the cache stays as it is, fewer than 2^31 entries match and the fuel
    -- is more than their number, then a foreach loop over the iterator ends and visits the key
    -- and value of every matching entry once, in the order of the slots, whatever else the chunk
    -- size is.
    pub foreach-all_items :
        (fuel : ℕ)
        → length (all_items shm grant cache it cache.slots) < 2 ^ 31
        → length (all_items shm grant cache it cache.slots) < fuel
        → foreach fuel p it ≡ some (map seen_as (all_items shm grant cache it cache.slots))
    unfolding foreach
    foreach-all_items fuel fit enough =
        let q = scan shm grant cache it 0 cache.slots in
        let same : left shm grant cache it started small p granted q.0 (0 + q.1) 0
            ≡ all_items shm grant cache it cache.slots =
          ap (λ cs. q.0 ++ all_items shm grant cache it cs) (sym (drop-drop 0 q.1 cache.slots))
          ∙ scan-all_items shm grant cache it 0 cache.slots in
        ap (λ (v : Option Bool × Iterator V × Process). visits fuel v.2 v.1)
          (rewind-moved shm grant cache it started small p granted)
        ∙ visits-left fuel q.0 (0 + q.1) 0 0
            (scan-few shm grant cache it started small p granted 0 fit)
            (omega (arith, fit, ap length same)) (omega arith) (omega (arith, ap length same))
        ∙ ap (λ xs. some (map seen_as xs)) same
