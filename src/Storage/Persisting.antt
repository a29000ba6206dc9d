-- ===== src/Storage/Persisting.antt =====
-- `immutable_cache_persist` keeps the key and the statistics of an entry.
use mathlib.Core.Path.{subst}
use immutable_cache_pecl.Prelude.{
  ℕ, Bool, true, false, List, [], Option, none, some, ◌==◌, if◌then◌else◌, ◌≡◌, refl, ap, sym, ◌∙◌,
  Bool-cases, ◌&&◌, not, inl, inr,
}
use immutable_cache_pecl.Cache.Entry.{ZendString, Entry}
use immutable_cache_pecl.Cache.State.{Persists}
use immutable_cache_pecl.Persist.Value.{Zval}
use immutable_cache_pecl.Persist.Calc.{Php, Calc}
use immutable_cache_pecl.Persist.Copy.{
  Shared, Copy, alloc, hash_val, get_or_copy_zstr, get_already_allocated, copy_cstr,
}
use immutable_cache_pecl.Persist.Entries.{persist_copy, start, memoization}
use immutable_cache_pecl.Persist.Reach.{copied}
use immutable_cache_pecl.Persist.Roundtrip.{made, persist-Made}
use immutable_cache_pecl.Storage.{Aside, hashed_key, shm}

module _ {R : Type 0} (php : Php R) (contains : ℕ → Bool) where
  -- the copy of a string that carries its hash, as the first one of an entry
  KeepsString : ZendString → Copy → Type 0
  KeepsString s c =
      ((get_or_copy_zstr php contains s c).0.val ≡ s.val)
      × ((get_or_copy_zstr php contains s c).0.h ≡ php.hash s.val)

  hash_val-hash : (val : List ℕ) → hash_val php (php.hash val) val ≡ php.hash val
  hash_val-hash val = elim (Bool-cases (php.hash val == 0)) [
    | inl zero ↦ rw zero refl
    | inr other ↦ rw other refl
  ]

  get_or_copy_zstr-KeepsString :
      (s : ZendString) (address : ℕ) (memo : Bool)
      → s.h ≡ php.hash s.val
      → KeepsString s
          (record { alloc_cur = address; already_allocated = if memo then some [] else none })
  unfolding get_or_copy_zstr get_already_allocated copy_cstr KeepsString
  get_or_copy_zstr-KeepsString s address true hashed = elim (Bool-cases (contains s.ptr)) [
    | inl shared ↦ rw (shared, KeepsString, get_or_copy_zstr, get_already_allocated) (refl, hashed)
    | inr other ↦
        rw (other, KeepsString, get_or_copy_zstr, get_already_allocated)
          (refl, ap (λ h. hash_val php h s.val) hashed ∙ hash_val-hash s.val)
  ]
  get_or_copy_zstr-KeepsString s address false hashed = elim (Bool-cases (contains s.ptr)) [
    | inl shared ↦ rw (shared, KeepsString, get_or_copy_zstr, get_already_allocated) (refl, hashed)
    | inr other ↦
        rw (other, KeepsString, get_or_copy_zstr, get_already_allocated)
          (refl, ap (λ h. hash_val php h s.val) hashed ∙ hash_val-hash s.val)
  ]

module _ {R S : Type 0} (php : Php R) (contains : ℕ → Bool) (malloc : S → ℕ → ℕ × S)
    (free : S → ℕ → S) (find : List ℕ → Option R) (aside : Aside S) where
  KeepsEntry : Entry Zval → Entry Shared → Type 0
  KeepsEntry orig e =
      (e.key.val ≡ orig.key.val)
      × (e.key.h ≡ php.hash orig.key.val)
      × (e.nhits ≡ orig.nhits)
      × (e.ctime ≡ orig.ctime)
      × (e.atime ≡ orig.atime)

  copied-KeepsEntry :
      (serializer : Option R) (orig : Entry Zval) (address : ℕ) (ctxt : Calc)
      → KeepsEntry orig
          (copied php serializer contains (hashed_key php contains orig) address ctxt).0
  unfolding persist_copy KeepsEntry KeepsString
  copied-KeepsEntry serializer orig address ctxt =
      let (val, h) =
        get_or_copy_zstr-KeepsString php contains (hashed_key php contains orig).key
          (alloc php php.sizeof_entry
            (start php serializer contains address orig ctxt.use_serialization)).alloc_cur
          (memoization serializer orig.val && not ctxt.use_serialization) refl in
      (val, h, refl, refl, refl)

  -- Persisting an entry keeps its key, with the hash of its bytes, and its statistics.
  pub shm-Persists : Persists (shm php contains malloc free find aside)
  unfolding KeepsEntry
  shm-Persists = record {
    kept = λ s serializer orig e is.
        elim (persist-Made php serializer contains malloc s (hashed_key php contains orig) e is) [
          | made ctxt address ready eq ↦
              subst (KeepsEntry orig) (sym eq) (copied-KeepsEntry serializer orig address ctxt)
        ];
  }
