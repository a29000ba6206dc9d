-- ===== src/Storage/Whole.antt =====
-- What a fetch returns of a value that was stored.
use immutable_cache_pecl.Prelude.{
  ℕ, Bool, true, List, Option, some, ◌≡◌, refl, ap, ◌∙◌, Option-cases, inl, inr,
}
use immutable_cache_pecl.Cache.Entry.{ZendString, init_entry}
use immutable_cache_pecl.Cache.Locks.{Process, Grant, rlock}
use immutable_cache_pecl.Cache.State.{Cache, World, Shm, of_cache}
use immutable_cache_pecl.Cache.Operations.{store, fetch}
use immutable_cache_pecl.Cache.View.{IsValid}
use immutable_cache_pecl.Cache.Immutable.{Reach}
use immutable_cache_pecl.Cache.Fetch.{fetch-store}
use immutable_cache_pecl.Persist.Value.{Zval, Plain, entries, no_item, plain}
use immutable_cache_pecl.Persist.Calc.{Php}
use immutable_cache_pecl.Persist.Copy.{Shared}
use immutable_cache_pecl.Persist.Entries.{unpersist_serialized}
use immutable_cache_pecl.Persist.Contents.{Coherent, Text}
use immutable_cache_pecl.Persist.Roundtrip.{
  IsStorable, Back, looks_same, by_serializer, unpersist-persist,
}
use immutable_cache_pecl.Storage.{Aside, hashed_key, if_successful, taken_out, shm}
use immutable_cache_pecl.Storage.Persisting.{shm-Persists}

module _ {R : Type 0} (php : Php R) (contains : ℕ → Bool) where
  -- What is taken out for a value: one with the same contents, or what the serializer makes of its
  -- own string.
  pub data Taken (serializer : Option R) (z : Zval) (out : Option Zval) : Type 0 where
    same_contents : (r : Zval) → out ≡ some r → plain r ≡ plain z → Taken serializer z out
    unserialized :
        (buf : List ℕ)
        → php.serialize serializer z ≡ some buf
        → out ≡ php.unserialize serializer buf
        → Taken serializer z out

  if_successful-unserialized :
      (serializer : Option R) (buf : List ℕ)
      → if_successful (some (unpersist_serialized php serializer buf))
        ≡ php.unserialize serializer buf
  unfolding unpersist_serialized
  if_successful-unserialized serializer buf = elim (Option-cases (php.unserialize serializer buf)) [
    | inl failed ↦ rw (failed, unpersist_serialized) refl
    | inr (y, read) ↦ rw (read, unpersist_serialized) refl
  ]

  Back-Taken :
      (serializer : Option R) (z : Zval) (w : Shared)
      → Back php serializer contains z w
      → Taken serializer z (taken_out php contains w serializer)
  unfolding taken_out
  Back-Taken serializer z w (looks_same r back same) = same_contents r (ap if_successful back) same
  Back-Taken serializer z w (by_serializer buf s back) =
      unserialized buf s (ap if_successful back ∙ if_successful-unserialized serializer buf)

module _ {R S : Type 0} (php : Php R) (contains : ℕ → Bool) (malloc : S → ℕ → ℕ × S)
    (free : S → ℕ → S) (find : List ℕ → Option R) (aside : Aside S) (at : ℕ → Plain)
    (empty : plain php.empty_array ≡ entries no_item) where
  abbrev whole : Shm Zval R Shared S
  whole = shm php contains malloc free find aside

  -- If PHP's empty array has no elements, every address in a value and its key leads to one
  -- value, an array that counts no elements has none, the value is neither a reference nor a
  -- resource, and a store of it into a valid cache, whose entries the functions of
  -- immutable_cache_persist.c make and take out over any allocator, returns true, then in every
  -- world reached from there whose cache exists and has the serializer that it had, a fetch of
  -- the key that is granted its lock finds an entry, and gives either a value with the same
  -- contents as the one that was stored, or what the serializer makes of the string that it made
  -- of that value.
  pub fetch-store-Taken :
      (c : Cache R Shared S) (p : Process) (grant : Grant) (key : ZendString) (val : Zval) (t : ℕ)
      (v : World R Shared S) (d : Cache R Shared S)
      → IsValid whole c
      → IsStorable val
      → Coherent at val
      → Text at key
      → (store whole grant (of_cache (some c) p) key val t).0 ≡ true
      → Reach whole (store whole grant (of_cache (some c) p) key val t).1 v
      → v.cache ≡ some d
      → d.serializer ≡ c.serializer
      → (grant' : Grant) (t' : ℕ) → (rlock grant' (php.hash key.val) v.process).0 ≡ true
      → (out : Option Zval) × ((fetch whole grant' v key.val t').0 ≡ some out)
        × Taken php contains c.serializer val out
  unfolding init_entry
  fetch-store-Taken c p grant key val t v d valid storable k text ok reach there same grant' t'
        granted =
      let (e, made, fetched) =
        fetch-store whole (shm-Persists php contains malloc free find aside) c p valid grant key val
          t v d ok reach there grant' t' granted in
      let (same_key, back) =
        unpersist-persist php c.serializer contains at empty malloc c.sma
          (hashed_key php contains (init_entry key val t)) e storable k text made in
      (
        taken_out php contains e.val c.serializer,
        fetched ∙ ap (λ r. some (taken_out php contains e.val r)) same,
        Back-Taken php contains c.serializer val e.val back,
      )
