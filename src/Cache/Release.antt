-- ===== src/Cache/Release.antt =====
-- Every exported operation gives back the locks that it took, on every branch.
use mathlib.Core.Path.{subst}
use immutable_cache_pecl.Prelude.{
  ℕ, ◌≡◌, refl, ap, sym, true, false, ◌∙◌, Bool, List, Option, none, some, arith, Bool-cases,
  Option-cases, inl, inr,
}
use immutable_cache_pecl.Cache.Entry.{ZendString, Entry, init_entry}
use immutable_cache_pecl.Cache.Locks.{Process, Grant, wlock, wunlock}
use immutable_cache_pecl.Cache.State.{Cache, World, Shm, of_cache}
use immutable_cache_pecl.Cache.Slots.{wlocked_insert_exclusive}
use immutable_cache_pecl.Cache.Operations.{
  store, find, fetch, exists, stat, set_serializer, cache_info,
}
use immutable_cache_pecl.Cache.Balance.{
  IsQuiet, wunlock-wlock, runlock-rlock, runlock_global-rlock_global,
}
use immutable_cache_pecl.Cache.Immutable.{
  Step, stores, finds, fetches, tests, stats, informs, serializes, other,
}

-- What persisting and freeing an entry do to a quiet process: they give back what they take.
pub record GivesBack {V R W S : Type 0} (shm : Shm V R W S) : Type 0 where
  pub persisted :
      (grant : Grant) (s : S) (r : Option R) (orig : Entry V) (p : Process)
      → IsQuiet p
      → shm.persist_process grant s r orig p ≡ p
  pub freed :
      (grant : Grant) (s : S) (e : Entry W) (p : Process)
      → IsQuiet p
      → shm.free_process grant s e p ≡ p

module _ {V R W S : Type 0} (shm : Shm V R W S) (back : GivesBack shm) where
  module _ (grant : Grant) (p : Process) (quiet : IsQuiet p) where
    module _ (c : Cache R W S) (key : ZendString) (val : V) (t : ℕ) where
      abbrev made : Option (Entry W) × S
      unfolding init_entry
      made = shm.persist c.sma c.serializer (init_entry key val t)

      abbrev before : Process
      unfolding init_entry
      before = shm.persist_process grant c.sma c.serializer (init_entry key val t) p

      abbrev locked : Bool × Process
      unfolding init_entry
      locked = wlock grant (shm.hash key.val) before

      -- the process after a store, case by case
      failed-process :
          made.0 ≡ none → (store shm grant (of_cache (some c) p) key val t).1.process ≡ before
      unfolding store init_entry
      failed-process failed = rw (failed, store)

      refused-process :
          (e : Entry W)
          → made.0 ≡ some e
          → locked.0 ≡ false
          → (store shm grant (of_cache (some c) p) key val t).1.process
            ≡ shm.free_process grant made.1 e locked.1
      unfolding store init_entry
      refused-process e done refused = rw (done, store, refused)

      stored-process :
          (e : Entry W)
          → made.0 ≡ some e
          → locked.0 ≡ true
          → (wlocked_insert_exclusive shm (record c { sma = made.1 }) e).0 ≡ true
          → (store shm grant (of_cache (some c) p) key val t).1.process
            ≡ wunlock (shm.hash key.val) locked.1
      unfolding store init_entry
      stored-process e done granted ok = rw (done, store, granted, ok)

      present-process :
          (e : Entry W)
          → made.0 ≡ some e
          → locked.0 ≡ true
          → (wlocked_insert_exclusive shm (record c { sma = made.1 }) e).0 ≡ false
          → (store shm grant (of_cache (some c) p) key val t).1.process
            ≡ shm.free_process grant
                (wlocked_insert_exclusive shm (record c { sma = made.1 }) e).1.sma
                e
                (wunlock (shm.hash key.val) locked.1)
      unfolding store init_entry
      present-process e done granted old = rw (done, store, granted, old)

      -- the lock calls between persisting and freeing
      unlocked :
          (x : Process)
          → x ≡ p
          → ((wlock grant (shm.hash key.val) x).0 ≡ true
              → wunlock (shm.hash key.val) (wlock grant (shm.hash key.val) x).1 ≡ p)
            × ((wlock grant (shm.hash key.val) x).0 ≡ false
                → (wlock grant (shm.hash key.val) x).1 ≡ p)
      unlocked x same =
          subst
            (λ y.
              ((wlock grant (shm.hash key.val) y).0 ≡ true
                → wunlock (shm.hash key.val) (wlock grant (shm.hash key.val) y).1 ≡ p)
              × ((wlock grant (shm.hash key.val) y).0 ≡ false
                  → (wlock grant (shm.hash key.val) y).1 ≡ p))
            (sym same) (wunlock-wlock grant (shm.hash key.val) p quiet)

      some-store-process : (store shm grant (of_cache (some c) p) key val t).1.process ≡ p
      unfolding init_entry
      some-store-process =
          let same = back.persisted grant c.sma c.serializer (init_entry key val t) p quiet in
          let balance = unlocked before same in
          elim (Option-cases made.0) [
            | inl failed ↦ failed-process failed ∙ same
            | inr (e, done) ↦ elim (Bool-cases locked.0) [
              | inr refused ↦
                  refused-process e done refused
                  ∙ ap (shm.free_process grant made.1 e) (balance.1 refused)
                  ∙ back.freed grant made.1 e p quiet
              | inl granted ↦
                  elim (Bool-cases (wlocked_insert_exclusive shm (record c { sma = made.1 }) e).0) [
                    | inl ok ↦ stored-process e done granted ok ∙ balance.0 granted
                    | inr old ↦
                        present-process e done granted old
                        ∙ ap (shm.free_process grant _ e) (balance.0 granted)
                        ∙ back.freed grant _ e p quiet
                  ]
            ]
          ]

    store-process :
        (c : Option (Cache R W S)) (key : ZendString) (val : V) (t : ℕ)
        → (store shm grant (of_cache c p) key val t).1.process ≡ p
    unfolding store
    store-process none key val t = refl
    store-process (some c) key val t = some-store-process c key val t

    find-process :
        (c : Option (Cache R W S)) (key : List ℕ) (t : ℕ)
        → (find shm grant (of_cache c p) key t).1.process ≡ p
    unfolding find
    find-process none key t = refl
    find-process (some c) key t = ground (arith, runlock-rlock grant p (shm.hash key))

    fetch-process :
        (c : Option (Cache R W S)) (key : List ℕ) (t : ℕ)
        → (fetch shm grant (of_cache c p) key t).1.process ≡ p
    unfolding fetch
    fetch-process none key t = refl
    fetch-process (some c) key t = ground (arith, runlock-rlock grant p (shm.hash key))

    exists-process :
        (c : Option (Cache R W S)) (key : List ℕ)
        → (exists shm grant (of_cache c p) key).1.process ≡ p
    unfolding exists
    exists-process none key = refl
    exists-process (some c) key = ground (arith, runlock-rlock grant p (shm.hash key))

    stat-process :
        (c : Option (Cache R W S)) (key : List ℕ)
        → (stat shm grant (of_cache c p) key).1.process ≡ p
    unfolding stat
    stat-process none key = refl
    stat-process (some c) key = ground (arith, runlock-rlock grant p (shm.hash key))

    info-process :
        (c : Option (Cache R W S)) (limited : Bool)
        → (cache_info grant (of_cache c p) limited).1.process ≡ p
    unfolding cache_info
    info-process none limited = refl
    info-process (some c) limited = ground (arith, runlock_global-rlock_global grant p)

    serializer-process :
        (c : Option (Cache R W S)) (name : List ℕ)
        → (set_serializer shm grant (of_cache c p) name).process ≡ p
    unfolding set_serializer
    serializer-process none name = refl
    serializer-process (some c) name = elim (Option-cases (c.serializer)) [
      | inr (r, loaded) ↦ rw (loaded, set_serializer)
      | inl missing ↦ elim (Bool-cases (c.loaded_serializer)) [
        | inl tried ↦ rw (missing, set_serializer, tried)
        | inr fresh ↦ rw (missing, set_serializer, fresh)
      ]
    ]

  -- one operation over any memory
  pub process-Step : {w v : World R W S} → Step shm w v → IsQuiet w.process → v.process ≡ w.process
  process-Step (stores {w} grant key val t e) q =
      ap World.process e ∙ store-process grant w.process q w.cache key val t
  process-Step (finds {w} grant key t e) q =
      ap World.process e ∙ find-process grant w.process q w.cache key t
  process-Step (fetches {w} grant key t e) q =
      ap World.process e ∙ fetch-process grant w.process q w.cache key t
  process-Step (tests {w} grant key e) q =
      ap World.process e ∙ exists-process grant w.process q w.cache key
  process-Step (stats {w} grant key e) q =
      ap World.process e ∙ stat-process grant w.process q w.cache key
  process-Step (informs {w} grant limited e) q =
      ap World.process e ∙ info-process grant w.process q w.cache limited
  process-Step (serializes {w} grant name e) q =
      ap World.process e ∙ serializer-process grant w.process q w.cache name
  process-Step (other p step) q = refl
