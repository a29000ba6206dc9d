-- ===== src/Cache/Store.antt =====
-- `immutable_cache_cache_store` on every branch, against the abstract view.
use mathlib.Core.Path.{subst}
use immutable_cache_pecl.Prelude.{
  ℕ, ◌≡◌, refl, ap, sym, ◌∙◌, Bool, true, false, List, Option, none, some, same, eq_of_same,
  same_refl, if◌then◌else◌, Bool-cases, Option-cases, inl, inr,
}
use immutable_cache_pecl.Cache.Entry.{ZendString, Entry, init_entry}
use immutable_cache_pecl.Cache.Locks.{Process, Grant, wlock, wunlock}
use immutable_cache_pecl.Cache.State.{Cache, World, Shm, Persists}
use immutable_cache_pecl.Cache.Slots.{rlocked_find_nostat, hash_slot}
use immutable_cache_pecl.Cache.Operations.{store}
use immutable_cache_pecl.Cache.Chains.{Frozen, frozen}
use immutable_cache_pecl.Cache.View.{view, IsValid}
use immutable_cache_pecl.Cache.Insert.{insert-present, insert-absent}

module _ {V R W S : Type 0} (shm : Shm V R W S) (laws : Persists shm) (grant : Grant)
    (c : Cache R W S) (p : Process) (key : ZendString) (val : V) (t : ℕ) where
  -- the call of `immutable_cache_persist` and that of `immutable_cache_cache_wlock`
  abbrev pub persisted : Option (Entry W) × S
  unfolding init_entry
  persisted = shm.persist c.sma c.serializer (init_entry key val t)

  abbrev pub process_after : Process
  unfolding init_entry
  process_after = shm.persist_process grant c.sma c.serializer (init_entry key val t) p

  abbrev pub locked : Bool × Process
  unfolding init_entry
  locked = wlock grant (shm.hash key.val) process_after

  -- the cache with nothing new but the state of the allocator
  abbrev pub with_sma : S → Cache R W S
  with_sma sma = record c { sma = sma }

  -- What a store comes to. The four cases exclude one another. In the middle two the memory of the
  -- new entry is given back.
  pub data Outcome (r : Bool × World R W S) : Type 0 where
    no_memory :
        persisted.0 ≡ none
        → r ≡ (false, record { cache = some (with_sma persisted.1); process = process_after })
        → Outcome r
    not_locked :
        (e : Entry W)
        → persisted.0 ≡ some e
        → locked.0 ≡ false
        → r ≡ (
          false,
          record {
            cache = some (with_sma (shm.free_entry persisted.1 e));
            process = shm.free_process grant persisted.1 e locked.1;
          },
        )
        → Outcome r
    present :
        (e : Entry W) (f : Frozen W)
        → persisted.0 ≡ some e
        → locked.0 ≡ true
        → view shm c key.val ≡ some f
        → r ≡ (
          false,
          record {
            cache = some (with_sma (shm.free_entry persisted.1 e));
            process = shm.free_process grant persisted.1 e (wunlock (shm.hash key.val) locked.1);
          },
        )
        → Outcome r
    stored :
        (e : Entry W) (c' : Cache R W S)
        → persisted.0 ≡ some e
        → locked.0 ≡ true
        → view shm c key.val ≡ none
        → ((q : List ℕ)
            → view shm c' q ≡ (if same q key.val then some (frozen e) else view shm c q))
        → IsValid shm c'
        → c'.sma ≡ persisted.1
        → c'.serializer ≡ c.serializer
        → r ≡ (true, record { cache = some c'; process = wunlock (shm.hash key.val) locked.1 })
        → Outcome r

  pub IsValid-with_sma : (sma : S) → IsValid shm c → IsValid shm (with_sma sma)
  IsValid-with_sma sma valid = record {
    width = valid.width;
    positive = valid.positive;
    placed = valid.placed;
    counted = valid.counted;
    inserted = valid.inserted;
    used = valid.used;
  }

  pub view-with_sma : (sma : S) (q : List ℕ) → view shm (with_sma sma) q ≡ view shm c q
  unfolding view rlocked_find_nostat hash_slot
  view-with_sma sma q = refl

  insert_Outcome :
      (e : Entry W)
      → IsValid shm c
      → persisted.0 ≡ some e
      → locked.0 ≡ true
      → Outcome (store shm grant (record { cache = some c; process = p }) key val t)
  unfolding store init_entry
  insert_Outcome e valid made granted =
      let kept = laws.kept c.sma c.serializer _ e made in
      let old : Cache R W S = with_sma persisted.1 in
      elim (Option-cases (view shm old e.key.val)) [
        | inl absent ↦
            let hashed : e.key.h ≡ shm.hash e.key.val = kept.1 ∙ ap shm.hash (sym kept.0) in
            let (c', done, self, others, valid', sma, serializer) =
              insert-absent shm old e hashed (IsValid-with_sma persisted.1 valid) absent in
            stored e c' made granted
              (subst (λ k. view shm c k ≡ none) kept.0 (sym (view-with_sma persisted.1 _) ∙ absent))
              (λ q. elim (Bool-cases (same q key.val)) [
                | inl it ↦ rw it (ap (view shm c') (eq_of_same q key.val it ∙ sym kept.0) ∙ self)
                | inr not_it ↦ rw not_it (
                    others q (λ q-is.
                      (cc (ap (λ k. same k key.val) (q-is ∙ kept.0), same_refl key.val, not_it)))
                    ∙ view-with_sma persisted.1 q)
              ])
              valid' sma serializer (rw (made, store, granted, done))
        | inr (f, there) ↦
            present e f made granted
              (subst (λ k. view shm c k ≡ some f) kept.0
                (sym (view-with_sma persisted.1 _) ∙ there))
              (rw (made, store, granted, insert-present shm old e f there))
      ]

  -- If persisting keeps an entry's key and statistics (`Persists`), a store into a valid cache
  -- comes to one of four cases: persisting fails; the lock is refused and the new entry is freed;
  -- the key is present, and the new entry is freed and the view unchanged; or the result is true,
  -- the key was absent, the view is the old one with the new entry added, and the cache is valid.
  pub store-Outcome :
      IsValid shm c → Outcome (store shm grant (record { cache = some c; process = p }) key val t)
  unfolding store init_entry
  store-Outcome valid = elim (Option-cases persisted.0) [
    | inl failed ↦ no_memory failed (rw (failed, store))
    | inr (e, made) ↦ elim (Bool-cases locked.0) [
      | inl granted ↦ insert_Outcome e valid made granted
      | inr refused ↦ not_locked e made refused (rw (made, store, refused))
    ]
  ]
