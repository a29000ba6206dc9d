-- ===== src/Functions.antt =====
-- php_immutable_cache.c: the functions `immutable_cache_add`, `immutable_cache_fetch` and
-- `immutable_cache_exists` that PHP code calls. An argument that is neither a string nor an array is
-- left out.
use immutable_cache_pecl.Prelude.{
  ℕ, suc, Bool, true, false, List, [], ◌∷◌, Option, none, some, same, if◌then◌else◌,
}
use immutable_cache_pecl.Cache.Entry.{ZendString}
use immutable_cache_pecl.Cache.Locks.{Grant}
use immutable_cache_pecl.Cache.State.{Cache, World, Shm}
use immutable_cache_pecl.Cache.Operations.{store, fetch, exists, set_serializer}
pub mod Fetched
pub mod Names
pub mod SmaInfo
mod Examples

-- A key of a PHP array.
pub data ArrayKey : Type 0 where
  name : ZendString → ArrayKey
  index : ℕ → ArrayKey

-- The arguments of `immutable_cache_add`: a string with or without a value, or an array of keys and
-- values.
pub data Added (V : Type 0) : Type 0 where
  single : ZendString → Option V → Added V
  pairs : List (ArrayKey × V) → Added V
  neither : Added V

-- A Boolean, or an array whose keys are the ones that failed.
pub data AddResult : Type 0 where
  boolean : Bool → AddResult
  failures : List ZendString → AddResult

-- The keys to fetch or to test for; an element of an array that is no string is absent.
pub data Wanted : Type 0 where
  one : List ℕ → Wanted
  many : List (Option (List ℕ)) → Wanted

-- The value and the success flag of `immutable_cache_fetch`; `missed` is false.
pub data FetchResult (V : Type 0) : Type 0 where
  missed : FetchResult V
  fetched : V → FetchResult V
  fetched_all : List (List ℕ × V) → FetchResult V

-- The status that `immutable_cache_cache_fetch` returns, with the value: it is 0 for a miss, and also
-- for an entry whose value cannot be copied out.
abbrev pub status_of : {V : Type 0} → Option (Option V) → Option V
status_of none = none
status_of (some value) = value

pub data ExistsResult : Type 0 where
  answer : Bool → ExistsResult
  present_keys : List (List ℕ) → ExistsResult

-- `zend_hash_update`
abbrev pub hash_update : {A : Type 0} → List ℕ → A → List (List ℕ × A) → List (List ℕ × A)
hash_update key v [] = (key, v) ∷ []
hash_update key v ((k, x) ∷ rest) =
    if same k key then (k, v) ∷ rest else (k, x) ∷ hash_update key v rest

module _ {V R W S : Type 0} (shm : Shm V R W S) (grant : Grant) where
  -- `loaded_serializer = 1`
  abbrev pub mark_loaded : World R W S → World R W S
  mark_loaded w = elim (w.cache) [
    | none ↦ w
    | some c ↦ record w { cache = some (record c { loaded_serializer = true }) }
  ]

  -- the serializer is looked up by its name at the first call
  unfoldable pub load_serializer : Option (List ℕ) → World R W S → World R W S
  load_serializer serializer_name w = elim (w.cache) [
    | none ↦ w
    | some c ↦ elim (c.loaded_serializer) [
      | true ↦ w
      | false ↦ elim serializer_name [
        | none ↦ w
        | some wanted ↦ mark_loaded (set_serializer shm grant w wanted)
      ]
    ]
  ]

  -- the loop over an array of keys and values: the keys that failed. `long_to_str` is
  -- `zend_long_to_str`, and `time i` the time of the store of number `i`.
  unfoldable pub store_pairs :
      (long_to_str : ℕ → ZendString)
      → (time : ℕ → ℕ) → ℕ
      → List (ArrayKey × V)
      → World R W S
      → List ZendString × World R W S
  store_pairs long_to_str time i [] w = ([], w)
  store_pairs long_to_str time i ((k, v) ∷ rest) w =
      let hkey : ZendString = elim k [ name key ↦ key | index n ↦ long_to_str n ] in
      let (ok, w₁) = store shm grant w hkey v (time i) in
      let (failed, w₂) = store_pairs long_to_str time (suc i) rest w₁ in
      (if ok then failed else hkey ∷ failed, w₂)

  -- `immutable_cache_store_helper`, which is all of `immutable_cache_add`
  unfoldable pub store_helper :
      (long_to_str : ℕ → ZendString)
      → (time : ℕ → ℕ) → (serializer_name : Option (List ℕ)) → Added V
      → World R W S
      → AddResult × World R W S
  store_helper long_to_str time serializer_name args w =
      let w₁ = load_serializer serializer_name w in
      elim args [
        | single key none ↦ (boolean false, w₁)
        | single key (some val) ↦
            let (ok, w₂) = store shm grant w₁ key val (time 0) in (boolean ok, w₂)
        | pairs entries ↦
            let (failed, w₂) = store_pairs long_to_str time 0 entries w₁ in (failures failed, w₂)
        | neither ↦ (boolean false, w₁)
      ]

  -- the loop of `immutable_cache_fetch` over an array
  unfoldable pub fetch_many :
      ℕ → List (Option (List ℕ)) → List (List ℕ × V) → World R W S → List (List ℕ × V) × World R W S
  fetch_many t [] found w = (found, w)
  fetch_many t (none ∷ ks) found w = fetch_many t ks found w
  fetch_many t (some key ∷ ks) found w =
      let (result, w₁) = fetch shm grant w key t in
      fetch_many t ks (elim (status_of result) [ none ↦ found | some v ↦ hash_update key v found ])
        w₁

  unfoldable pub fetch_function : ℕ → Wanted → World R W S → FetchResult V × World R W S
  unfolding fetch_many
  fetch_function t (one key) w =
      let (result, w₁) = fetch shm grant w key t in
      (elim (status_of result) [ none ↦ missed | some v ↦ fetched v ], w₁)
  fetch_function t (many ks) w = let (found, w₁) = fetch_many t ks [] w in (fetched_all found, w₁)

  -- The loop of `immutable_cache_exists` over an array. `zend_hash_add_new` puts a key in once more
  -- that is there already.
  unfoldable pub exists_many : List (Option (List ℕ)) → World R W S → List (List ℕ) × World R W S
  exists_many [] w = ([], w)
  exists_many (none ∷ ks) w = exists_many ks w
  exists_many (some key ∷ ks) w =
      let (there, w₁) = exists shm grant w key in
      let (rest, w₂) = exists_many ks w₁ in (if there then key ∷ rest else rest, w₂)

  unfoldable pub exists_function : Wanted → World R W S → ExistsResult × World R W S
  unfolding exists_many
  exists_function (one key) w = let (there, w₁) = exists shm grant w key in (answer there, w₁)
  exists_function (many ks) w = let (there, w₁) = exists_many ks w in (present_keys there, w₁)
