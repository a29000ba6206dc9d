-- ===== src/Persist/Roundtrip.antt =====
-- What `immutable_cache_unpersist` makes of what `immutable_cache_persist` made.
use immutable_cache_pecl.Prelude.{
  ℕ, ◌≡◌, refl, ap, sym, ◌∙◌, Bool, true, false, ◌||◌, ==_iff, List, Option, some, inl, inr,
  Bool-cases, Option-cases, ◌==◌,
}
use mathlib.Core.Path.{subst}
use mathlib.Core.Option.{some-injective, none-ne-some}
use immutable_cache_pecl.Cache.Entry.{Entry}
use immutable_cache_pecl.Persist.Value.{
  Zval, is_counted, undef, scalar, string, packed, hashed, object, resource, reference, Plain,
  entries, foreign, no_item, plain,
}
use immutable_cache_pecl.Persist.Calc.{Php, Calc, calc, calc_zval}
use immutable_cache_pecl.Persist.Copy.{Shared, value, Copy, get_or_copy_zstr, alloc, copy_cstr}
use immutable_cache_pecl.Persist.Tables.{not_both}
use immutable_cache_pecl.Persist.Arrays.{zval-Good}
use immutable_cache_pecl.Persist.Contents.{Coherent, Text, Counted, key-Good, start-Faithful}
use immutable_cache_pecl.Persist.Mode.{mode, kept, as_string_of}
use immutable_cache_pecl.Persist.Entries.{
  is_object, prepare, persist_copy, copy_value, start, persist, unpersist, unpersist_zval,
  unpersist_serialized,
}
use immutable_cache_pecl.Persist.Prepared.{counting, serializing, prepare-Prepared}
use immutable_cache_pecl.Persist.Reach.{
  serializes, copied, copied_plain, counting-Goes, calc_str_mode,
}

-- a value that an entry may have at the top: no reference and no resource
abbrev pub IsStorable : Zval → Type 0
IsStorable (reference ptr) = ⊥
IsStorable (resource ptr) = ⊥
IsStorable _ = Unit {0}

module _ {R : Type 0} (php : Php R) (empty : plain php.empty_array ≡ entries no_item) where
  -- a value that looks like one that may be stored, and whose elements are counted, comes back
  unpersist_zval-Same :
      (z : Zval)
      → Counted z
      → ((ptr : ℕ) → ¬ (plain z ≡ foreign ptr))
      → (r : Zval) × (unpersist_zval php z ≡ some r) × (plain r ≡ plain z)
  unfolding unpersist_zval plain
  unpersist_zval-Same undef n k = (undef, refl, refl)
  unpersist_zval-Same (scalar m) n k = (scalar m, refl, refl)
  unpersist_zval-Same (string s) n k = (string s, refl, refl)
  unpersist_zval-Same (packed ptr head zs) n k = elim (Bool-cases (head.num_elements == 0)) [
    | inl zero ↦ (
      php.empty_array,
      rw zero refl,
      empty ∙ ap entries (sym (n ((==_iff head.num_elements 0).0 zero))),
    )
    | inr more ↦ (packed ptr head zs, rw more refl, refl)
  ]
  unpersist_zval-Same (hashed ptr head bs) n k = elim (Bool-cases (head.num_elements == 0)) [
    | inl zero ↦ (
      php.empty_array,
      rw zero refl,
      empty ∙ ap entries (sym (n ((==_iff head.num_elements 0).0 zero))),
    )
    | inr more ↦ (hashed ptr head bs, rw more refl, refl)
  ]
  unpersist_zval-Same (object ptr) n k = absurd (k ptr refl)
  unpersist_zval-Same (resource ptr) n k = absurd (k ptr refl)
  unpersist_zval-Same (reference ptr) n k = absurd (k ptr refl)

abbrev is_foreign : Plain → Bool
is_foreign (foreign ptr) = true
is_foreign _ = false

storable_plain :
    (z : Zval) → IsStorable z → is_object z ≡ false → (ptr : ℕ) → ¬ (plain z ≡ foreign ptr)
unfolding plain
storable_plain undef k other ptr e = not_both (sym (ap is_foreign e))
storable_plain (scalar _) k other ptr e = not_both (sym (ap is_foreign e))
storable_plain (string _) k other ptr e = not_both (sym (ap is_foreign e))
storable_plain (packed _ _ _) k other ptr e = not_both (sym (ap is_foreign e))
storable_plain (hashed _ _ _) k other ptr e = not_both (sym (ap is_foreign e))
storable_plain (object _) k other ptr e = not_both other
storable_plain (resource _) k other ptr e = k
storable_plain (reference _) k other ptr e = k

no_object : (a b : Bool) → (a || b) ≡ false → a ≡ false
no_object true b e = e
no_object false b e = refl

module _ {R : Type 0} (php : Php R) (serializer : Option R) (contains : ℕ → Bool) where
  -- what was prepared and copied for an entry
  pub data Made (orig : Entry Zval) (entry : Entry Shared) : Type 0 where
    made :
        (ctxt : Calc) (address : ℕ)
        → prepare php serializer contains orig ≡ some ctxt
        → entry
          ≡ (record (copied php serializer contains orig address ctxt).0 { mem_size = ctxt.size })
        → Made orig entry

  pub persist-Made :
      {S : Type 0}
      → (malloc : S → ℕ → ℕ × S) (sma : S) (orig : Entry Zval) (entry : Entry Shared)
      → (persist php serializer contains malloc sma orig).0 ≡ some entry
      → Made orig entry
  unfolding persist
  persist-Made malloc sma orig entry e =
      elim (Option-cases (prepare php serializer contains orig)) [
        | inl off ↦ absurd (none-ne-some entry (sym (rw (persist, off) refl) ∙ e))
        | inr (ctxt, ready) ↦ elim (Bool-cases ((malloc sma ctxt.size).0 == 0)) [
          | inl full ↦ absurd (none-ne-some entry (sym (rw (persist, ready, full) refl) ∙ e))
          | inr room ↦
              made ctxt (malloc sma ctxt.size).0 ready
                (sym (some-injective _ entry (sym (rw (persist, ready, room) refl) ∙ e)))
        ]
      ]

  -- what comes back for a value that went in: one that looks the same, or what the serializer makes
  -- of its own string
  pub data Back (z : Zval) (shared : Shared) : Type 0 where
    looks_same :
        (r : Zval)
        → unpersist php serializer shared ≡ some (r, true)
        → plain r ≡ plain z
        → Back z shared
    by_serializer :
        (buf : List ℕ)
        → php.serialize serializer z ≡ some buf
        → unpersist php serializer shared ≡ some (unpersist_serialized php serializer buf)
        → Back z shared

  module _ (at : ℕ → Plain) (empty : plain php.empty_array ≡ entries no_item) where
    value-Back :
        (z y : Zval)
        → Counted y
        → plain y ≡ plain z
        → ((ptr : ℕ) → ¬ (plain z ≡ foreign ptr))
        → Back z (value y)
    unfolding unpersist
    value-Back z y n e k =
        let (r, back, same) = unpersist_zval-Same php empty y n (λ ptr p. k ptr (sym e ∙ p)) in
        looks_same r (rw (unpersist, back) refl) (same ∙ e)

    counting-Back :
        (orig : Entry Zval) (address : ℕ) (ctxt : Calc)
        → ctxt.use_serialization ≡ false
        → Coherent at orig.val
        → Text at orig.key
        → ((ptr : ℕ) → ¬ (plain orig.val ≡ foreign ptr))
        → ((copied php serializer contains orig address ctxt).0.key.val ≡ orig.key.val)
          × Back orig.val (copied php serializer contains orig address ctxt).0.val
    counting-Back orig address ctxt off k t storable =
        let d = alloc php php.sizeof_entry (start php serializer contains address orig false) in
        let (key, f) = key-Good at php contains orig.key d (start-Faithful at _) t in
        let (same, n, _) =
          zval-Good at php contains orig.val (get_or_copy_zstr php contains orig.key d).1 k f in
        subst (λ q. (q.0.key.val ≡ orig.key.val) × Back orig.val q.0.val)
          (sym (copied_plain php serializer contains ctxt orig address off))
          (key, value-Back orig.val _ n same storable)

    simple : (z : Zval) → is_counted z ≡ false → Counted z × ((ptr : ℕ) → ¬ (plain z ≡ foreign ptr))
    unfolding plain
    simple undef e = (tt, λ ptr p. not_both (sym (ap is_foreign p)))
    simple (scalar _) e = (tt, λ ptr p. not_both (sym (ap is_foreign p)))
    simple (string _) e = absurd (not_both e)
    simple (packed _ _ _) e = absurd (not_both e)
    simple (hashed _ _ _) e = absurd (not_both e)
    simple (object _) e = absurd (not_both e)
    simple (resource _) e = absurd (not_both e)
    simple (reference _) e = absurd (not_both e)

    -- a value in serialization mode
    mode-Back :
        (z : Zval) (c : Calc) (d : Copy)
        → c.use_serialization ≡ true
        → (calc_zval php serializer contains z c).0 ≡ true
        → Back z
            (copy_value php serializer contains (calc_zval php serializer contains z c).1 z d).0
    unfolding copy_cstr unpersist
    mode-Back z c d ser ok = elim (mode php serializer contains z c d ser ok) [
      | kept bare e f ↦
          let (n, k) = simple z bare in
          subst (λ q. Back z q.0) (sym (f (calc_zval php serializer contains z c).1))
            (value-Back z z n refl k)
      | as_string_of buf s e f ↦
          subst (λ q. Back z (copy_value php serializer contains q.1 z d).0) (sym e)
            (subst (λ q. Back z q.0) (sym f) (by_serializer buf s refl))
    ]

    serializing-Back :
        (orig : Entry Zval) (address : ℕ)
        → (serializes php serializer contains orig).0 ≡ true
        → Text at orig.key
        → ((copied php serializer contains orig address
              (serializes php serializer contains orig).1).0.key.val
            ≡ orig.key.val)
          × Back orig.val
              (copied php serializer contains orig address
                (serializes php serializer contains orig).1).0.val
    unfolding calc persist_copy
    serializing-Back orig address ok t =
        let u = (serializes php serializer contains orig).1.use_serialization in
        let d = alloc php php.sizeof_entry (start php serializer contains address orig u) in
        let (key, f) = key-Good at php contains orig.key d (start-Faithful at _) t in
        (
          key,
          mode-Back orig.val _ _
              (ap (λ c. c.use_serialization)
                (calc_str_mode php serializer contains orig.key php.sizeof_entry))
              ok,
        )

    copied-Back :
        (orig : Entry Zval) (ctxt : Calc) (address : ℕ)
        → prepare php serializer contains orig ≡ some ctxt
        → IsStorable orig.val
        → Coherent at orig.val
        → Text at orig.key
        → ((copied php serializer contains orig address ctxt).0.key.val ≡ orig.key.val)
          × Back orig.val (copied php serializer contains orig address ctxt).0.val
    copied-Back orig ctxt address ready storable k t =
        elim (prepare-Prepared php serializer contains orig ctxt ready) [
          | counting off is ok ↦
              counting-Back orig address ctxt
                (subst (λ c. c.use_serialization ≡ false) (sym is)
                  (counting-Goes php serializer contains address orig ok).plain)
                k t (storable_plain orig.val storable (no_object _ _ off))
          | serializing is ok ↦
              subst
                (λ c.
                  ((copied php serializer contains orig address c).0.key.val ≡ orig.key.val)
                  × Back orig.val (copied php serializer contains orig address c).0.val)
                (sym is) (serializing-Back orig address ok t)
        ]

    -- If every address in a value leads to one value and an array that counts no elements has
    -- none, the value at the top is neither a reference nor a resource, PHP's empty array has no
    -- elements, and persisting makes an entry, then the entry has the bytes of the key, and
    -- unpersisting its value returns either a value with the same contents, or what the
    -- serializer makes of the string that it made of the original.
    pub unpersist-persist :
        {S : Type 0}
        → (malloc : S → ℕ → ℕ × S) (sma : S) (orig : Entry Zval) (entry : Entry Shared)
        → IsStorable orig.val
        → Coherent at orig.val
        → Text at orig.key
        → (persist php serializer contains malloc sma orig).0 ≡ some entry
        → (entry.key.val ≡ orig.key.val) × Back orig.val entry.val
    unpersist-persist malloc sma orig entry storable k t e =
        elim (persist-Made malloc sma orig entry e) [
          | made ctxt address ready is_entry ↦
              subst (λ x. (x.key.val ≡ orig.key.val) × Back orig.val x.val) (sym is_entry)
                (copied-Back orig ctxt address ready storable k t)
        ]
