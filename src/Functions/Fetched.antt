-- ===== src/Functions/Fetched.antt =====
-- What `immutable_cache_fetch` answers for an array, by the abstract view of the cache.
use immutable_cache_pecl.Prelude.{
  ℕ, ◌≡◌, refl, sym, ap, ◌∙◌, Bool, true, false, ◌||◌, List, [], ◌∷◌, Option, none, some, same,
  eq_of_same, if◌then◌else◌, Bool-cases, Option-cases, inl, inr,
}
use immutable_cache_pecl.Cache.Locks.{Process, Grant, rlock}
use immutable_cache_pecl.Cache.State.{Cache, World, Shm, of_cache}
use immutable_cache_pecl.Cache.Slots.{rlocked_find}
use immutable_cache_pecl.Cache.Operations.{fetch}
use immutable_cache_pecl.Cache.View.{view, IsValid}
use immutable_cache_pecl.Cache.Hit.{rlocked_find-Looked}
use immutable_cache_pecl.Cache.Balance.{runlock-rlock}
use immutable_cache_pecl.Cache.Fetch.{copy_out, fetch-view}
use immutable_cache_pecl.Functions.{
  hash_update, status_of, fetch_many, fetch_function, many, fetched_all,
}

-- the value of a PHP array under a key
abbrev pub value_at : {A : Type 0} → List ℕ → List (List ℕ × A) → Option A
value_at key [] = none
value_at key ((k, v) ∷ rest) = if same k key then some v else value_at key rest

-- an array of arguments has the string
abbrev pub asked : List ℕ → List (Option (List ℕ)) → Bool
asked key [] = false
asked key (none ∷ ks) = asked key ks
asked key (some k ∷ ks) = same k key || asked key ks

value_at-hash_update :
    {A : Type 0}
    → (k : List ℕ) (v : A) (found : List (List ℕ × A)) (key : List ℕ)
    → value_at key (hash_update k v found) ≡ (if same k key then some v else value_at key found)
value_at-hash_update k v [] key = refl
value_at-hash_update k v ((l, x) ∷ rest) key = elim (Bool-cases (same l k)) [
  | inl it ↦
      let e : same l key ≡ same k key = ap (λ m. same m key) (eq_of_same l k it) in
      elim (Bool-cases (same k key)) [
        | inl here ↦ rw (it, e, here) refl
        | inr apart ↦ rw (it, e, apart) refl
      ]
  | inr other ↦
      let rest_is = value_at-hash_update k v rest key in
      elim (Bool-cases (same k key)) [
        | inl here ↦
            let e : same l key ≡ false = ap (same l) (sym (eq_of_same k key here)) ∙ other in
            rw (other, e, here) (rest_is ∙ rw here refl)
        | inr apart ↦ elim (Bool-cases (same l key)) [
          | inl that ↦ rw (other, apart, that) refl
          | inr not_that ↦ rw (other, apart, not_that) (rest_is ∙ rw apart refl)
        ]
      ]
]

-- the first value if there is one
abbrev or_else : {A : Type 0} → Option A → Option A → Option A
or_else none b = b
or_else (some a) b = some a

-- the array after one fetch
abbrev put : {A : Type 0} → List ℕ → Option A → List (List ℕ × A) → List (List ℕ × A)
put k value found = elim value [ none ↦ found | some v ↦ hash_update k v found ]

value_at-put :
    {A : Type 0}
    → (k : List ℕ) (value : Option A) (found : List (List ℕ × A)) (key : List ℕ)
    → value_at key (put k value found)
      ≡ (if same k key then or_else value (value_at key found) else value_at key found)
value_at-put k none found key = elim (Bool-cases (same k key)) [
  | inl here ↦ rw here refl
  | inr apart ↦ rw apart refl
]
value_at-put k (some v) found key = value_at-hash_update k v found key

or_none : {A : Type 0} → (o : Option A) → or_else o none ≡ o
or_none none = refl
or_none (some a) = refl

twice :
    {A : Type 0}
    → (b : Bool) (a o : Option A)
    → (if b then or_else a (or_else a o) else or_else a o) ≡ or_else a o
twice true none o = refl
twice true (some x) o = refl
twice false a o = refl

-- one more string in the array of arguments
more_asked :
    {A : Type 0}
    → (value : List ℕ → Option A) (k key : List ℕ) (b : Bool) (found : List (List ℕ × A))
    → (if b
        then or_else (value key) (value_at key (put k (value k) found))
        else value_at key (put k (value k) found))
      ≡ (if same k key || b then or_else (value key) (value_at key found) else value_at key found)
more_asked value k key b found = elim (Bool-cases (same k key)) [
  | inl here ↦
      let e : value k ≡ value key = ap value (eq_of_same k key here) in
      let l : value_at key (put k (value k) found) ≡ or_else (value key) (value_at key found) =
        value_at-put k (value k) found key ∙ rw here (ap (λ o. or_else o (value_at key found)) e) in
      rw (l, here) (twice b (value key) (value_at key found))
  | inr apart ↦
      let l : value_at key (put k (value k) found) ≡ value_at key found =
        value_at-put k (value k) found key ∙ rw apart refl in
      rw (l, apart) refl
]

module _ {V R W S : Type 0} (shm : Shm V R W S) (grant : Grant) where
  -- a valid cache with the view of `c`, after a fetch
  record After (c : Cache R W S) (p : Process) (w : World R W S) : Type 0 where
    cache : Cache R W S
    eq : w ≡ of_cache (some cache) p
    valid : IsValid shm cache
    look :
        (q : List ℕ)
        → copy_out shm cache.serializer (view shm cache q)
          ≡ copy_out shm c.serializer (view shm c q)

  fetch-After :
      (c : Cache R W S) (p : Process) (key : List ℕ) (t : ℕ)
      → IsValid shm c
      → (rlock grant (shm.hash key) p).0 ≡ true
      → After c p (fetch shm grant (of_cache (some c) p) key t).1
  unfolding fetch
  fetch-After c p key t valid granted =
      let p₁ = (rlock grant (shm.hash key) p).1 in
      let looked = rlocked_find-Looked shm key t p₁.protect_memory c valid in
      let given_back = (runlock-rlock grant p (shm.hash key)).0 granted in
      let c' = (rlocked_find shm p₁.protect_memory c key t).1 in
      let same_world : (fetch shm grant (of_cache (some c) p) key t).1 ≡ of_cache (some c') p =
        elim (Option-cases (rlocked_find shm p₁.protect_memory c key t).0) [
          | inl missing ↦ rw (granted, fetch, missing) (ap (of_cache (some c')) given_back)
          | inr (e, found) ↦ rw (granted, fetch, found) (ap (of_cache (some c')) given_back)
        ] in
      record {
        cache = c';
        eq = same_world;
        valid = looked.valid;
        look = λ q.
            ap (λ r. copy_out shm r (view shm c' q)) looked.serializer
            ∙ ap (copy_out shm c.serializer) (looked.same q);
      }

  module _ (p : Process) (granted : (key : List ℕ) → (rlock grant (shm.hash key) p).0 ≡ true)
      (look : List ℕ → Option (Option V)) (t : ℕ) where
    -- the array after the loop, if each fetch comes to `look`
    fetch_many-value_at :
        (ks : List (Option (List ℕ))) (found : List (List ℕ × V)) (c : Cache R W S)
        → IsValid shm c
        → ((q : List ℕ) → copy_out shm c.serializer (view shm c q) ≡ look q)
        → (key : List ℕ)
        → value_at key (fetch_many shm grant t ks found (of_cache (some c) p)).0 ≡ (
            if asked key ks
            then or_else (status_of (look key)) (value_at key found)
            else value_at key found)
    unfolding fetch_many
    fetch_many-value_at [] found c valid is key = refl
    fetch_many-value_at (none ∷ ks) found c valid is key =
        fetch_many-value_at ks found c valid is key
    fetch_many-value_at (some k ∷ ks) found c valid is key =
        let a = fetch-After c p k t valid (granted k) in
        let result : (fetch shm grant (of_cache (some c) p) k t).0 ≡ look k =
          fetch-view shm grant c p k valid (granted k) t ∙ is k in
        let next : List (List ℕ × V) = put k (status_of (look k)) found in
        let ih = fetch_many-value_at ks next a.cache a.valid (λ q. a.look q ∙ is q) key in
        ap
          (λ w.
            value_at key
              (fetch_many shm grant t ks
                (put k (status_of (fetch shm grant (of_cache (some c) p) k t).0) found) w).0)
          a.eq
        ∙ ap
            (λ r.
              value_at key
                (fetch_many shm grant t ks (put k (status_of r) found)
                  (of_cache (some a.cache) p)).0)
            result
        ∙ ih
        ∙ more_asked (λ q. status_of (look q)) k key (asked key ks) found

  -- If the locks of all keys are granted, immutable_cache_fetch of an array returns for a valid
  -- cache an array that has, under every key that is among the strings of the argument, the
  -- unpersisted value of what the view holds under it, if it holds something and its value can be
  -- unpersisted, and that has no other keys.
  pub fetch_function-value_at :
      (c : Cache R W S) (p : Process)
      → IsValid shm c
      → ((key : List ℕ) → (rlock grant (shm.hash key) p).0 ≡ true)
      → (t : ℕ) (ks : List (Option (List ℕ)))
      → (found : List (List ℕ × V)) × ((fetch_function shm grant t
            (many ks)
            (of_cache (some c) p)).0
          ≡ fetched_all found)
        × ((key : List ℕ)
            → value_at key found ≡ (
                if asked key ks
                then status_of (copy_out shm c.serializer (view shm c key))
                else none))
  unfolding fetch_function
  fetch_function-value_at c p valid granted t ks = (
    _,
    refl,
    λ key.
        fetch_many-value_at p granted (λ q. copy_out shm c.serializer (view shm c q)) t ks [] c
          valid (λ q. refl) key
        ∙ ap (λ o. if asked key ks then o else none)
            (or_none (status_of (copy_out shm c.serializer (view shm c key)))),
  )
