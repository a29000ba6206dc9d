-- ===== src/Cache/Fetch.antt =====
-- What the reading operations return, by the abstract view; what a fetch gives after a store,
-- however many operations lie between them; and the locks that each operation gives back.
use mathlib.Core.Path.{subst}
use immutable_cache_pecl.Prelude.{
  ℕ, ◌≡◌, ap, sym, ◌∙◌, Bool, true, false, List, Option, none, some, arith, same_refl, Option-cases,
  inl, inr,
}
use immutable_cache_pecl.Cache.Entry.{ZendString, Entry, init_entry}
use immutable_cache_pecl.Cache.Locks.{Process, Grant, rlock}
use immutable_cache_pecl.Cache.State.{Cache, World, Shm, Persists, of_cache}
use immutable_cache_pecl.Cache.Slots.{rlocked_find, rlocked_find_nostat}
use immutable_cache_pecl.Cache.Operations.{store, find, fetch, exists}
use immutable_cache_pecl.Cache.Chains.{Frozen, frozen, frozen?}
use immutable_cache_pecl.Cache.View.{view, IsValid}
use immutable_cache_pecl.Cache.Hit.{rlocked_find-Looked}
use immutable_cache_pecl.Cache.Store.{no_memory, not_locked, present, stored, store-Outcome}
use immutable_cache_pecl.Cache.Keeps.{held_in, IsSound}
use immutable_cache_pecl.Cache.Immutable.{Reach, Reach-Keeps}

module _ {V R W S : Type 0} (shm : Shm V R W S) where
  abbrev pub is_some {ℓ} : {A : Type ℓ} → Option A → Bool
  is_some none = false
  is_some (some a) = true

  -- the value of a frozen entry, copied out by a serializer
  abbrev pub copy_out : Option R → Option (Frozen W) → Option (Option V)
  copy_out r none = none
  copy_out r (some f) = some (shm.unpersist f.val r)

  module _ (grant : Grant) (c : Cache R W S) (p : Process) (key : List ℕ) (valid : IsValid shm c)
      (granted : (rlock grant (shm.hash key) p).0 ≡ true) where
    -- A find in a valid cache that is granted its lock returns the entry that the view holds
    -- under the key, apart from its hits and access time, and none where it holds nothing.
    pub find-view :
        (t : ℕ) → frozen? (find shm grant (of_cache (some c) p) key t).0 ≡ view shm c key
    unfolding find
    find-view t =
        let p₁ = (rlock grant (shm.hash key) p).1 in
        rw (granted, find) (rlocked_find-Looked shm key t p₁.protect_memory c valid).result

    -- A fetch from a valid cache that is granted its lock returns the unpersisted value of what
    -- the view holds under the key, and a miss where it holds nothing.
    pub fetch-view :
        (t : ℕ)
        → (fetch shm grant (of_cache (some c) p) key t).0 ≡ copy_out c.serializer (view shm c key)
    unfolding fetch
    fetch-view t =
        let p₁ = (rlock grant (shm.hash key) p).1 in
        let looked = rlocked_find-Looked shm key t p₁.protect_memory c valid in
        elim (Option-cases (rlocked_find shm p₁.protect_memory c key t).0) [
          | inl missing ↦
              rw (granted, fetch, missing)
                (ap (copy_out c.serializer) (ap frozen? (sym missing) ∙ looked.result))
          | inr (e, found) ↦
              rw (granted, fetch, found, looked.serializer)
                (ap (copy_out c.serializer) (ap frozen? (sym found) ∙ looked.result))
        ]

    -- A test for a key of a valid cache that is granted its lock returns whether the view holds
    -- something under it.
    pub exists-view : (exists shm grant (of_cache (some c) p) key).0 ≡ is_some (view shm c key)
    unfolding exists view
    exists-view = elim (Option-cases (rlocked_find_nostat shm c key)) [
      | inl missing ↦ rw (granted, exists, missing)
      | inr (e, found) ↦ rw (granted, exists, found)
    ]

  fetch-held :
      (grant : Grant) (o : Option (Cache R W S)) (p : Process) (d : Cache R W S) (key : List ℕ)
      (t : ℕ) (f : Frozen W)
      → o ≡ some d
      → IsSound shm o
      → held_in shm o key ≡ some f
      → (rlock grant (shm.hash key) p).0 ≡ true
      → (fetch shm grant (of_cache o p) key t).0 ≡ some (shm.unpersist f.val d.serializer)
  fetch-held grant none p d key t f at sound held granted = cc
  fetch-held grant (some x) p d key t f at sound held granted =
      let same : x ≡ d = cc in
      fetch-view grant x p key sound granted t
      ∙ ap (copy_out x.serializer) held
      ∙ ap (λ (y : Cache R W S). some (shm.unpersist f.val y.serializer)) same

  -- a store that succeeds leaves the persisted entry in the view
  store-held :
      (laws : Persists shm) (grant : Grant) (c : Cache R W S) (p : Process) (key : ZendString)
      (val : V) (t : ℕ)
      → IsValid shm c
      → (store shm grant (of_cache (some c) p) key val t).0 ≡ true
      → (e : Entry W) × ((shm.persist c.sma c.serializer (init_entry key val t)).0 ≡ some e)
        × IsSound shm (store shm grant (of_cache (some c) p) key val t).1.cache
        × (held_in shm (store shm grant (of_cache (some c) p) key val t).1.cache key.val
            ≡ some (frozen e))
  unfolding init_entry
  store-held laws grant c p key val t valid ok =
      elim (store-Outcome shm laws grant c p key val t valid) [
        | no_memory failed e ↦ absurd (ground arith)
        | not_locked x made refused e ↦ absurd (ground arith)
        | present x f made granted there e ↦ absurd (ground arith)
        | stored x c' made granted absent after valid' sma serializer e ↦
            let at = ap (λ (r : Bool × World R W S). r.1.cache) e in
            (
              x,
              made,
              subst (IsSound shm) (sym at) valid',
              subst (λ (o : Option (Cache R W S)). held_in shm o key.val ≡ some (frozen x)) (sym at)
                  (ground (arith, after key.val, same_refl key.val)),
            )
      ]

  module _ (laws : Persists shm) (c : Cache R W S) (p : Process) (valid : IsValid shm c) where
    -- If persisting keeps an entry's key and statistics (`Persists`), and a store into a valid
    -- cache returns true, then in every world reached from there whose cache exists, a fetch of
    -- the key that is granted its lock returns the unpersisted value of the entry that the store
    -- persisted.
    pub fetch-store :
        (grant : Grant) (key : ZendString) (val : V) (t : ℕ) (v : World R W S) (d : Cache R W S)
        → (store shm grant (of_cache (some c) p) key val t).0 ≡ true
        → Reach shm (store shm grant (of_cache (some c) p) key val t).1 v
        → v.cache ≡ some d
        → (grant' : Grant) (t' : ℕ) → (rlock grant' (shm.hash key.val) v.process).0 ≡ true
        → (e : Entry W) × ((shm.persist c.sma c.serializer (init_entry key val t)).0 ≡ some e)
          × ((fetch shm grant' v key.val t').0 ≡ some (shm.unpersist e.val d.serializer))
    fetch-store grant key val t v d ok reach at grant' t' granted =
        let (e, made, sound, held) = store-held laws grant c p key val t valid ok in
        let k = Reach-Keeps shm laws reach sound in
        (
          e,
          made,
          fetch-held grant' v.cache v.process d key.val t' (frozen e) at k.sound
              (k.held key.val (frozen e) held) granted,
        )
