-- ===== src/Persist/Frozen.antt =====
-- The value of an entry that `immutable_cache_persist` makes.
use immutable_cache_pecl.Prelude.{
  ℕ, suc, ◌≡◌, refl, ap, sym, Bool, true, false, [], Option, none, some, if◌then◌else◌,
}
use mathlib.Core.Path.{subst}
use immutable_cache_pecl.Cache.Entry.{Entry}
use immutable_cache_pecl.Persist.Value.{
  Zval, is_counted, undef, scalar, string, packed, hashed, object, resource, reference, Plain,
  plain,
}
use immutable_cache_pecl.Persist.Memo.{pointer_to_hash_key}
use immutable_cache_pecl.Persist.Tables.{not_both}
use immutable_cache_pecl.Persist.Calc.{Php, Calc, add_size, calc, calc_str, calc_zval}
use immutable_cache_pecl.Persist.Copy.{
  Shared, value, serialized, Copy, alloc, copy_cstr, get_or_copy_zstr,
}
use immutable_cache_pecl.Persist.Arrays.{zval-Good}
use immutable_cache_pecl.Persist.Contents.{Coherent, Text, key-Good, start-Faithful}
use immutable_cache_pecl.Persist.Mode.{mode, kept, as_string_of}
use immutable_cache_pecl.Persist.Entries.{
  copy_value, persist_copy, persist, start, memoization, init_context, prepare,
}
use immutable_cache_pecl.Persist.Prepared.{counting, serializing, prepare-Prepared}
use immutable_cache_pecl.Persist.Reach.{
  serializes, copied, copied_plain, counting-Goes, calc_str_mode, counts,
}
use immutable_cache_pecl.Persist.Roundtrip.{made, persist-Made}
use immutable_cache_pecl.Persist.Sealed.{Sealed, Alone, weight, Awaits, Awaits-Grows}
use immutable_cache_pecl.Persist.Sealing.{str-Done}
use immutable_cache_pecl.Persist.Immutable.{zval-Done}

-- a string of a serializer, or a value without objects, resources and references
abbrev pub IsImmutable : Shared → Type 0
IsImmutable (value z) = Sealed (plain z)
IsImmutable (serialized s) = Unit {0}

module _ {R : Type 0} (php : Php R) (serializer : Option R) (contains : ℕ → Bool) (at : ℕ → Plain)
    (inside : (ptr : ℕ) → contains ptr ≡ true → Sealed (at (pointer_to_hash_key ptr))) where
  empty-Awaits : (n : ℕ) (b : Bool) → Awaits at n (if b then some [] else none)
  empty-Awaits n true k met = absurd (not_both (sym met))
  empty-Awaits n false k met = absurd (not_both (sym met))

  -- what was counted without serialization
  counts-Sealed :
      (orig : Entry Zval)
      → Coherent at orig.val
      → Alone at orig.val
      → Text at orig.key
      → (counts php serializer contains orig).0 ≡ true
      → Sealed (plain orig.val)
  unfolding calc
  counts-Sealed orig k a t ok =
      let memo = memoization serializer orig.val in
      let c = add_size php php.sizeof_entry (init_context memo false) in
      let n = suc (weight (plain orig.val)) in
      let s = str-Done php serializer contains at inside orig.key c t refl in
      let c₁ = calc_str php serializer contains orig.key c in
      (zval-Done php serializer contains at inside orig.val c₁ k a s.off
        (Awaits-Grows at n c.already_counted c₁.already_counted (empty-Awaits n memo) s.grows)
        ok).sealed

  bare-Sealed : (z : Zval) → is_counted z ≡ false → Sealed (plain z)
  unfolding plain Sealed
  bare-Sealed undef e = tt
  bare-Sealed (scalar _) e = tt
  bare-Sealed (string _) e = absurd (not_both e)
  bare-Sealed (packed _ _ _) e = absurd (not_both e)
  bare-Sealed (hashed _ _ _) e = absurd (not_both e)
  bare-Sealed (object _) e = absurd (not_both e)
  bare-Sealed (resource _) e = absurd (not_both e)
  bare-Sealed (reference _) e = absurd (not_both e)

  -- a value in serialization mode
  mode-IsImmutable :
      (z : Zval) (c : Calc) (d : Copy)
      → c.use_serialization ≡ true
      → (calc_zval php serializer contains z c).0 ≡ true
      → IsImmutable
          (copy_value php serializer contains (calc_zval php serializer contains z c).1 z d).0
  unfolding copy_cstr
  mode-IsImmutable z c d ser ok = elim (mode php serializer contains z c d ser ok) [
    | kept bare e f ↦
        subst (λ q. IsImmutable q.0) (sym (f (calc_zval php serializer contains z c).1))
          (bare-Sealed z bare)
    | as_string_of buf s e f ↦
        subst (λ q. IsImmutable (copy_value php serializer contains q.1 z d).0) (sym e)
          (subst (λ q. IsImmutable q.0) (sym f) tt)
  ]

  counting-IsImmutable :
      (orig : Entry Zval) (address : ℕ) (ctxt : Calc)
      → ctxt.use_serialization ≡ false
      → Coherent at orig.val
      → Text at orig.key
      → Sealed (plain orig.val)
      → IsImmutable (copied php serializer contains orig address ctxt).0.val
  counting-IsImmutable orig address ctxt off k t done =
      let d = alloc php php.sizeof_entry (start php serializer contains address orig false) in
      let (key, f) = key-Good at php contains orig.key d (start-Faithful at _) t in
      let (same, n, _) =
        zval-Good at php contains orig.val (get_or_copy_zstr php contains orig.key d).1 k f in
      subst (λ q. IsImmutable q.0.val)
        (sym (copied_plain php serializer contains ctxt orig address off))
        (subst Sealed (sym same) done)

  serializing-IsImmutable :
      (orig : Entry Zval) (address : ℕ)
      → (serializes php serializer contains orig).0 ≡ true
      → IsImmutable
          (copied php serializer contains orig address
            (serializes php serializer contains orig).1).0.val
  unfolding calc persist_copy
  serializing-IsImmutable orig address ok =
      mode-IsImmutable orig.val _ _
        (ap (λ c. c.use_serialization)
          (calc_str_mode php serializer contains orig.key php.sizeof_entry))
        ok

  copied-IsImmutable :
      (orig : Entry Zval) (ctxt : Calc) (address : ℕ)
      → prepare php serializer contains orig ≡ some ctxt
      → Coherent at orig.val
      → Alone at orig.val
      → Text at orig.key
      → IsImmutable (copied php serializer contains orig address ctxt).0.val
  copied-IsImmutable orig ctxt address ready k a t =
      elim (prepare-Prepared php serializer contains orig ctxt ready) [
        | counting off is ok ↦
            counting-IsImmutable orig address ctxt
              (subst (λ c. c.use_serialization ≡ false) (sym is)
                (counting-Goes php serializer contains address orig ok).plain)
              k t (counts-Sealed orig k a t ok)
        | serializing is ok ↦
            subst (λ c. IsImmutable (copied php serializer contains orig address c).0.val) (sym is)
              (serializing-IsImmutable orig address ok)
      ]

  -- If every address in a value and its key leads to one value, an array that counts no elements
  -- has none, and what is in shared memory already has no object, resource or reference in it,
  -- then the value of every entry that persisting makes is the string of a serializer, or has no
  -- object, resource or reference at any depth.
  pub persist-IsImmutable :
      {S : Type 0}
      → (malloc : S → ℕ → ℕ × S) (sma : S) (orig : Entry Zval) (entry : Entry Shared)
      → Coherent at orig.val
      → Alone at orig.val
      → Text at orig.key
      → (persist php serializer contains malloc sma orig).0 ≡ some entry
      → IsImmutable entry.val
  persist-IsImmutable malloc sma orig entry k a t e =
      elim (persist-Made php serializer contains malloc sma orig entry e) [
        | made ctxt address ready is_entry ↦
            subst (λ x. IsImmutable x.val) (sym is_entry)
              (copied-IsImmutable orig ctxt address ready k a t)
      ]
