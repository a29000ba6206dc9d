-- ===== src/Functions/Examples.antt =====
-- Tests of the functions that PHP code calls, and the theorems applied.
use immutable_cache_pecl.Prelude.{
  ℕ, ◌≡◌, refl, true, if◌then◌else◌, List, [], ◌∷◌, Option, none, some, length,
}
use immutable_cache_pecl.Cache.Entry.{ZendString}
use immutable_cache_pecl.Cache.Locks.{rlock}
use immutable_cache_pecl.Cache.State.{World, of_cache}
use immutable_cache_pecl.Cache.Operations.{store, fetch, set_serializer}
use immutable_cache_pecl.Cache.View.{view}
use immutable_cache_pecl.Cache.Fetch.{copy_out}
use immutable_cache_pecl.Cache.Examples.{
  shm, always, process, empty, empty-IsValid, stored_cache, stored_IsValid, key,
}
use immutable_cache_pecl.Functions.{
  name, index, pairs, many, AddResult, failures, fetched_all, present_keys, store_helper, status_of,
  store_pairs, load_serializer, fetch_function, exists_function,
}
use immutable_cache_pecl.Functions.Fetched.{value_at, asked, fetch_function-value_at}
use immutable_cache_pecl.Functions.Names.{in_view, exists_function-in_view}

abbrev digits : ℕ → ZendString
digits n = record { ptr = 96; h = 0; val = n ∷ [] }

abbrev world : World ℕ ℕ ℕ
world = of_cache (some empty) process

-- a key, an integer key, and the first key once more
abbrev added : AddResult × World ℕ ℕ ℕ
added =
    store_helper shm always digits (λ i. i) (some (b'x' ∷ []))
      (pairs ((name key, 41) ∷ (index 7, 42) ∷ (name key, 43) ∷ [])) world

add_test : added.0 ≡ failures (key ∷ [])
unfolding store_helper store_pairs store load_serializer set_serializer
add_test = refl

fetch_test :
    (fetch_function shm always 5 (many (some (7 ∷ []) ∷ none ∷ some (8 ∷ []) ∷ [])) added.1).0
    ≡ fetched_all ((7 ∷ [], 42) ∷ [])
unfolding fetch_function store_helper fetch store_pairs store load_serializer set_serializer
fetch_test = refl

rlocks : (k : List ℕ) → (rlock always (length k) process).0 ≡ true
unfolding rlock
rlocks k = refl

exists_function-in_view_example :
    (exists_function shm always (many (some (7 ∷ []) ∷ none ∷ [])) world).0
    ≡ present_keys
        (in_view shm always empty process empty-IsValid rlocks (some (7 ∷ []) ∷ none ∷ []))
exists_function-in_view_example =
    exists_function-in_view shm always empty process empty-IsValid rlocks
      (some (7 ∷ []) ∷ none ∷ [])

abbrev wanted : List (Option (List ℕ))
wanted = some (7 ∷ 9 ∷ []) ∷ none ∷ some (8 ∷ []) ∷ []

fetch_function-value_at_example :
    (found : List (List ℕ × ℕ)) × ((fetch_function shm always 5
        (many wanted)
        (of_cache (some stored_cache) process)).0
      ≡ fetched_all found)
    × ((k : List ℕ)
        → value_at k found ≡ (
            if asked k wanted
            then status_of (copy_out shm stored_cache.serializer (view shm stored_cache k))
            else none))
fetch_function-value_at_example =
    fetch_function-value_at shm always stored_cache process stored_IsValid rlocks 5 wanted
