-- ===== src/Cache/Keeps.antt =====
-- Each exported operation keeps what the cache holds, and the invariant.
use mathlib.Core.Path.{subst}
use immutable_cache_pecl.Prelude.{
  ℕ, ◌≡◌, refl, ap, sym, ◌∙◌, Bool, true, false, List, Option, none, some, arith, same, eq_of_same,
  Bool-cases, Option-cases, inl, inr,
}
use immutable_cache_pecl.Cache.Entry.{ZendString, Entry}
use immutable_cache_pecl.Cache.Locks.{Process, Grant, rlock, rlock_global}
use immutable_cache_pecl.Cache.State.{Cache, World, Shm, Persists, of_cache}
use immutable_cache_pecl.Cache.Slots.{rlocked_find, rlocked_find_nostat, hash_slot}
use immutable_cache_pecl.Cache.Operations.{
  store, find, fetch, exists, stat, set_serializer, cache_info, name_is_php,
}
use immutable_cache_pecl.Cache.Chains.{Frozen}
use immutable_cache_pecl.Cache.View.{view, IsValid}
use immutable_cache_pecl.Cache.Hit.{Looked, rlocked_find-Looked}
use immutable_cache_pecl.Cache.Store.{
  no_memory, not_locked, present, stored, IsValid-with_sma, view-with_sma, store-Outcome, with_sma,
}

module _ {V R W S : Type 0} (shm : Shm V R W S) where
  -- what the world's cache holds under a key: nothing while there is no cache
  abbrev pub held_in : Option (Cache R W S) → List ℕ → Option (Frozen W)
  held_in none key = none
  held_in (some c) key = view shm c key

  abbrev pub IsSound : Option (Cache R W S) → Type 0
  IsSound none = Unit {0}
  IsSound (some c) = IsValid shm c

  -- `v` is sound, and holds all that `w` held
  pub record Keeps (w v : World R W S) : Type 0 where
    pub sound : IsSound v.cache
    pub held :
        (key : List ℕ) (f : Frozen W) → held_in w.cache key ≡ some f → held_in v.cache key ≡ some f

  pub keep_all : {w : World R W S} (p : Process) → IsSound w.cache → Keeps w (of_cache w.cache p)
  keep_all p sound = record { sound = sound; held = λ key f h. h }

  store-none :
      (grant : Grant) (p : Process) (key : ZendString) (val : V) (t : ℕ)
      → store shm grant (of_cache none p) key val t ≡ (false, of_cache none p)
  unfolding store
  store-none grant p key val t = refl

  pub store-Keeps :
      Persists shm
      → (grant : Grant) (c : Option (Cache R W S)) (p : Process) (key : ZendString) (val : V)
        (t : ℕ)
      → IsSound c
      → Keeps (of_cache c p) (store shm grant (of_cache c p) key val t).1
  store-Keeps laws grant none p key val t sound =
      subst (λ (r : Bool × World R W S). Keeps (of_cache none p) r.1)
        (sym (store-none grant p key val t)) (keep_all p sound)
  store-Keeps laws grant (some c) p key val t sound =
      let moved = λ (sma : S). with_sma shm laws grant c p key val t sma in
      let unchanged = λ (sma : S) (q : Process).
        let k : Keeps (of_cache (some c) p) (of_cache (some (moved sma)) q) = record {
          sound = IsValid-with_sma shm laws grant c p key val t sma sound;
          held = λ key' f h. view-with_sma shm laws grant c p key val t sma key' ∙ h;
        } in
        k in
      let carry =
        λ (r : Bool × World R W S) (e : store shm grant (of_cache (some c) p) key val t ≡ r)
            (k : Keeps (of_cache (some c) p) r.1).
          subst (λ (r : Bool × World R W S). Keeps (of_cache (some c) p) r.1) (sym e) k in
      elim (store-Outcome shm laws grant c p key val t sound) [
        | no_memory failed e ↦ carry _ e (unchanged _ _)
        | not_locked x made refused e ↦ carry _ e (unchanged _ _)
        | present x f made granted there e ↦ carry _ e (unchanged _ _)
        | stored x c' made granted absent after valid sma serializer e ↦ carry _ e (record {
          sound = valid;
          held = λ key' f h. elim (Bool-cases (same key' key.val)) [
            | inl it ↦ cc (ap (view shm c) (eq_of_same key' key.val it))
            | inr apart ↦ ground (arith, after key')
          ];
        })
      ]

  Looked-Keeps :
      (key : List ℕ) (t : ℕ) (c : Cache R W S) (p q : Process) (r : Option (Entry W) × Cache R W S)
      → Looked shm key t c r
      → Keeps (of_cache (some c) p) (of_cache (some r.1) q)
  Looked-Keeps key t c p q r looked = record {
    sound = looked.valid;
    held = λ key' f h. looked.same key' ∙ h;
  }

  pub find-Keeps :
      (grant : Grant) (c : Option (Cache R W S)) (p : Process) (key : List ℕ) (t : ℕ)
      → IsSound c
      → Keeps (of_cache c p) (find shm grant (of_cache c p) key t).1
  unfolding find
  find-Keeps grant none p key t sound = keep_all p sound
  find-Keeps grant (some c) p key t sound = elim (Bool-cases (rlock grant (shm.hash key) p).0) [
    | inl granted ↦
        rw (granted, find) (Looked-Keeps key t c p _ _ (rlocked_find-Looked shm key t _ c sound))
    | inr refused ↦ rw (refused, find) (keep_all _ sound)
  ]

  pub fetch-Keeps :
      (grant : Grant) (c : Option (Cache R W S)) (p : Process) (key : List ℕ) (t : ℕ)
      → IsSound c
      → Keeps (of_cache c p) (fetch shm grant (of_cache c p) key t).1
  unfolding fetch
  fetch-Keeps grant none p key t sound = keep_all p sound
  fetch-Keeps grant (some c) p key t sound =
      let p₁ = (rlock grant (shm.hash key) p).1 in
      let looked = rlocked_find-Looked shm key t p₁.protect_memory c sound in
      elim (Bool-cases (rlock grant (shm.hash key) p).0) [
        | inr refused ↦ rw (refused, fetch) (keep_all _ sound)
        | inl granted ↦ elim (Option-cases (rlocked_find shm p₁.protect_memory c key t).0) [
          | inl missing ↦ rw (granted, fetch, missing) (Looked-Keeps key t c p _ _ looked)
          | inr (e, found) ↦ rw (granted, fetch, found) (Looked-Keeps key t c p _ _ looked)
        ]
      ]

  pub exists-Keeps :
      (grant : Grant) (c : Option (Cache R W S)) (p : Process) (key : List ℕ)
      → IsSound c
      → Keeps (of_cache c p) (exists shm grant (of_cache c p) key).1
  unfolding exists
  exists-Keeps grant none p key sound = keep_all p sound
  exists-Keeps grant (some c) p key sound = elim (Bool-cases (rlock grant (shm.hash key) p).0) [
    | inl granted ↦ rw (granted, exists) (keep_all _ sound)
    | inr refused ↦ rw (refused, exists) (keep_all _ sound)
  ]

  pub stat-Keeps :
      (grant : Grant) (c : Option (Cache R W S)) (p : Process) (key : List ℕ)
      → IsSound c
      → Keeps (of_cache c p) (stat shm grant (of_cache c p) key).1
  unfolding stat
  stat-Keeps grant none p key sound = keep_all p sound
  stat-Keeps grant (some c) p key sound = elim (Bool-cases (rlock grant (shm.hash key) p).0) [
    | inl granted ↦ rw (granted, stat) (keep_all _ sound)
    | inr refused ↦ rw (refused, stat) (keep_all _ sound)
  ]

  pub info-Keeps :
      (grant : Grant) (c : Option (Cache R W S)) (p : Process) (limited : Bool)
      → IsSound c
      → Keeps (of_cache c p) (cache_info grant (of_cache c p) limited).1
  unfolding cache_info
  info-Keeps grant none p limited sound = keep_all p sound
  info-Keeps grant (some c) p limited sound = elim (Bool-cases (rlock_global grant p).0) [
    | inl granted ↦ rw (granted, cache_info) (keep_all _ sound)
    | inr refused ↦ rw (refused, cache_info) (keep_all _ sound)
  ]

  pub keep_serializer :
      (c : Cache R W S) (p : Process) (r : Option R) (l : Bool)
      → IsValid shm c
      → Keeps
          (of_cache (some c) p)
          (of_cache (some (record c { serializer = r; loaded_serializer = l })) p)
  unfolding view rlocked_find_nostat hash_slot
  keep_serializer c p r l valid = record {
    sound = record {
      width = valid.width;
      positive = valid.positive;
      placed = valid.placed;
      counted = valid.counted;
      inserted = valid.inserted;
      used = valid.used;
    };
    held = λ key f h. h;
  }

  pub carry : {w u v : World R W S} → v ≡ u → Keeps w u → Keeps w v
  carry {w} e k = subst (Keeps w) (sym e) k

  pub set_serializer-Keeps :
      (grant : Grant) (c : Option (Cache R W S)) (p : Process) (name : List ℕ)
      → IsSound c
      → Keeps (of_cache c p) (set_serializer shm grant (of_cache c p) name)
  unfolding set_serializer
  set_serializer-Keeps grant none p name sound = keep_all p sound
  set_serializer-Keeps grant (some c) p name sound =
      let with_serializer = λ (l : Bool) (r : Option R).
        of_cache (some (record c { serializer = r; loaded_serializer = l })) p in
      elim (Option-cases (c.serializer)) [
        | inr (r, loaded) ↦
            carry (rw (loaded, set_serializer) (ap (with_serializer c.loaded_serializer) loaded))
              (keep_all p sound)
        | inl missing ↦ elim (Bool-cases (c.loaded_serializer)) [
          | inl tried ↦
              carry (rw (missing, set_serializer, tried) (ap (with_serializer true) missing))
                (keep_all p sound)
          | inr fresh ↦
              let found = shm.find_serializer name in
              let k =
                keep_serializer c p found (elim found [ some r ↦ true | none ↦ name_is_php name ])
                  sound in
              carry (rw (missing, set_serializer, fresh)) k
        ]
      ]
