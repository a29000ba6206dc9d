-- ===== src/Iterator/Totals.antt =====
-- The totals of an iterator, against the items of all the slots.
use immutable_cache_pecl.Prelude.{
  ℕ, ◌+◌, ◌%◌, ◌^◌, ◌≡◌, refl, ap, ◌∙◌, true, false, List, [], ◌∷◌, Option, some, length,
  length-append, arith, inl, inr, Bool-cases, if_true, if_false,
}
use immutable_cache_pecl.Cache.Entry.{Entry}
use immutable_cache_pecl.Cache.Locks.{Grant, Process, rlock_global, runlock_global}
use immutable_cache_pecl.Cache.State.{Cache, Shm}
use immutable_cache_pecl.Sma.Words.{add64}
use immutable_cache_pecl.Iterator.{
  Iterator, search_match, chain_items, chain_totals, slot_totals, totals, get_total,
}
use immutable_cache_pecl.Iterator.Scan.{all_items}

module _ {V R W S : Type 0} (shm : Shm V R W S) (grant : Grant) (cache : Cache R W S)
    (it : Iterator V) where
  -- the iterator with other totals
  abbrev tallied : ℕ → ℕ → ℕ → Iterator V
  tallied size hits count = record it { size = size; hits = hits; count = count }

  data Tally (before n : ℕ) (after : Iterator V) : Type 0 where
    tally :
        (size hits count : ℕ)
        → after ≡ tallied size hits count
        → count % 2 ^ 64 ≡ (before + n) % 2 ^ 64
        → Tally before n after

  chain_totals-Tally :
      (size hits count : ℕ) (es : List (Entry W))
      → Tally count
          (length (chain_items shm grant cache it es))
          (chain_totals shm grant (tallied size hits count) es)
  unfolding chain_totals chain_items search_match
  chain_totals-Tally size hits count [] = tally size hits count refl (omega arith)
  chain_totals-Tally size hits count (e ∷ es) = elim (Bool-cases (search_match shm grant it e)) [
    | inl matches ↦
        elim (chain_totals-Tally (add64 size e.mem_size) (add64 hits e.nhits) (add64 count 1) es) [
          | tally s h c is sum ↦ rw matches (tally s h c is (omega (arith, sum)))
        ]
    | inr other ↦ rw other (chain_totals-Tally size hits count es)
  ]

  slot_totals-Tally :
      (size hits count : ℕ) (cs : List (List (Entry W)))
      → Tally count
          (length (all_items shm grant cache it cs))
          (slot_totals shm grant (tallied size hits count) cs)
  unfolding slot_totals all_items
  slot_totals-Tally size hits count [] = tally size hits count refl (omega arith)
  slot_totals-Tally size hits count (c ∷ cs) = elim (chain_totals-Tally size hits count c) [
    | tally s h n is sum ↦ elim (slot_totals-Tally s h n cs) [
      | tally s' h' n' is' sum' ↦ tally s' h' n' (ap (λ i. slot_totals shm grant i cs) is ∙ is') (
          sum'
          ∙ omega (
            arith,
            sum,
            length-append (chain_items shm grant cache it c) (all_items shm grant cache it cs),
          ))
    ]
  ]

  totals-granted :
      (p : Process)
      → (rlock_global grant p).0 ≡ true
      → totals shm grant cache p it ≡ (
        record (slot_totals shm grant it cache.slots) { totals_flag = true },
        runlock_global (rlock_global grant p).1,
      )
  unfolding totals
  totals-granted p granted = if_true (rlock_global grant p).0 _ _ granted

  -- If an iterator is initialized and has no totals, its count is 0 and the global read lock is
  -- granted, then the total count is, modulo 2^64, the number of the items of all the slots.
  pub get_total-count :
      (p : Process)
      → it.initialized ≡ true
      → it.totals_flag ≡ false
      → it.count ≡ 0
      → (rlock_global grant p).0 ≡ true
      → (n : ℕ) × ((get_total shm grant (λ i. i.count) cache p it).0 ≡ some n)
        × (n % 2 ^ 64 ≡ length (all_items shm grant cache it cache.slots) % 2 ^ 64)
  unfolding get_total
  get_total-count p started fresh untold granted =
      elim (slot_totals-Tally it.size it.hits it.count cache.slots) [
        | tally s h n is sum ↦ (
          n,
          ap (λ (q : Option ℕ × Iterator V × Process). q.0)
                (if_true it.initialized _ _ started ∙ if_false it.totals_flag _ _ fresh)
              ∙ ap (λ (q : Iterator V × Process). some q.0.count) (totals-granted p granted)
              ∙ ap (λ i. some i.count) is,
          sum ∙ omega (arith, untold),
        )
      ]
