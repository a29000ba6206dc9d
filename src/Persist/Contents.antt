-- ===== src/Persist/Contents.antt =====
-- What a PHP program sees of a copied string, and of what was copied before.
use immutable_cache_pecl.Prelude.{
  ℕ, ◌≡◌, refl, ap, sym, ◌∙◌, Bool, true, false, if◌then◌else◌, List, [], Option, none, some, ◌==◌,
  ==_iff, Bool-cases, Option-cases, inl, inr,
}
use mathlib.Core.Path.{subst}
use mathlib.Core.Option.{some-injective, none-ne-some}
use immutable_cache_pecl.Cache.Entry.{ZendString}
use immutable_cache_pecl.Persist.Value.{
  Zval, undef, scalar, string, packed, hashed, object, resource, reference, Elems, no_elem, elem,
  Buckets, no_bucket, keyed, indexed, indirect, Plain, text, entries, no_item, plain, plain_elems,
  plain_buckets,
}
use immutable_cache_pecl.Persist.Memo.{pointer_to_hash_key, lookup, note_made}
use immutable_cache_pecl.Persist.Calc.{Php}
use immutable_cache_pecl.Persist.Copy.{
  Copy, get_already_allocated, add_already_allocated, copy_cstr, get_or_copy_zstr, copy_zval,
  as_string,
}
use immutable_cache_pecl.Persist.Equations.{copy_zstr, copy_string}

-- An array that counts no elements has none.
abbrev pub Counted : Zval → Type 0
Counted (packed ptr head zs) = head.num_elements ≡ 0 → plain_elems zs 0 ≡ no_item
Counted (hashed ptr head bs) = head.num_elements ≡ 0 → plain_buckets bs ≡ no_item
Counted _ = Unit {0}

module _ (at : ℕ → Plain) where
  -- Every address leads to one value: `at` says what the value of a key of the tables of pointers is.
  abbrev pub Leads : ℕ → Plain → Type 0
  Leads ptr p = p ≡ at (pointer_to_hash_key ptr)

  abbrev pub Text : ZendString → Type 0
  Text s = Leads s.ptr (text s.val)

  unfoldable mutual
    pub Coherent : Zval → Type 0
    Coherent (string s) = Text s
    Coherent (packed ptr head zs) =
        Leads ptr (entries (plain_elems zs 0)) × Counted (packed ptr head zs) × CoherentElems zs
    Coherent (hashed ptr head bs) =
        Leads ptr (entries (plain_buckets bs)) × Counted (hashed ptr head bs) × CoherentBuckets bs
    Coherent _ = Unit {0}

    pub CoherentElems : Elems → Type 0
    CoherentElems no_elem = Unit {0}
    CoherentElems (elem z zs) = Coherent z × CoherentElems zs

    pub CoherentBuckets : Buckets → Type 0
    CoherentBuckets no_bucket = Unit {0}
    CoherentBuckets (keyed k z bs) = Text k × Coherent z × CoherentBuckets bs
    CoherentBuckets (indexed h z bs) = Coherent z × CoherentBuckets bs
    CoherentBuckets (indirect bs) = CoherentBuckets bs

  -- what has been copied is what its address led to
  abbrev pub Faithful : Option (List (ℕ × Zval)) → Type 0
  Faithful none = Unit {0}
  Faithful (some made) = (k : ℕ) (z : Zval) → lookup k made ≡ some z → (plain z ≡ at k) × Counted z

  pub start-Faithful : (b : Bool) → Faithful (if b then some [] else none)
  start-Faithful true = λ k z e. absurd (none-ne-some z e)
  start-Faithful false = tt

  pub Faithful-make :
      (k : ℕ) (z : Zval) (m : Option (List (ℕ × Zval)))
      → Faithful m
      → plain z ≡ at k
      → Counted z
      → Faithful (note_made k z m)
  Faithful-make k z none f e n = tt
  Faithful-make k z (some made) f e n = λ j y there. elim (Bool-cases (j == k)) [
    | inl it ↦
        let same : z ≡ y = some-injective z y (sym (rw it refl) ∙ there) in
        subst (λ x. (plain x ≡ at j) × Counted x) same (e ∙ ap at (sym ((==_iff j k).0 it)), n)
    | inr other ↦ f j y (sym (rw other refl) ∙ there)
  ]

  -- the text of a value, as a string is read
  abbrev text_of : Plain → List ℕ
  text_of (text val) = val
  text_of _ = []

  as_string-text_of : (z : Zval) → (as_string z).val ≡ text_of (plain z)
  unfolding plain
  as_string-text_of undef = refl
  as_string-text_of (scalar n) = refl
  as_string-text_of (string s) = refl
  as_string-text_of (packed ptr head zs) = refl
  as_string-text_of (hashed ptr head bs) = refl
  as_string-text_of (object ptr) = refl
  as_string-text_of (resource ptr) = refl
  as_string-text_of (reference ptr) = refl

  -- a good copy of a value that looks like `p`
  abbrev pub Good : Plain → Zval × Copy → Type 0
  Good p q = (plain q.0 ≡ p) × Counted q.0 × Faithful q.1.already_allocated

  module _ {R : Type 0} (php : Php R) (contains : ℕ → Bool) where
    -- what is found is good
    pub found-Good :
        (z x : Zval) (ptr : ℕ) (c : Copy)
        → Faithful c.already_allocated
        → Leads ptr (plain z)
        → Counted z
        → get_already_allocated contains c ptr z ≡ some x
        → (plain x ≡ plain z) × Counted x
    unfolding get_already_allocated
    found-Good z x ptr c f l n e = elim (Bool-cases (contains ptr)) [
      | inl inside ↦
          subst (λ y. (plain y ≡ plain z) × Counted y)
            (some-injective z x (sym (rw inside refl) ∙ e)) (refl, n)
      | inr outside ↦ elim (Option-cases c.already_allocated) [
        | inl off ↦ absurd (none-ne-some x (sym (rw (outside, off) refl) ∙ e))
        | inr (made, is) ↦
            let here : lookup (pointer_to_hash_key ptr) made ≡ some x =
              sym (rw (outside, is) refl) ∙ e in
            let (p, m) = (subst Faithful is f) (pointer_to_hash_key ptr) x here in (p ∙ sym l, m)
      ]
    ]

    -- the entry of a string, and the string as it is copied
    pub key-Good :
        (s : ZendString) (c : Copy)
        → Faithful c.already_allocated
        → Text s
        → ((get_or_copy_zstr php contains s c).0.val ≡ s.val)
          × Faithful (get_or_copy_zstr php contains s c).1.already_allocated
    unfolding copy_cstr add_already_allocated plain
    key-Good s c f t = elim (Option-cases (get_already_allocated contains c s.ptr (string s))) [
      | inl e ↦
          subst (λ q. (q.0.val ≡ s.val) × Faithful q.1.already_allocated)
            (sym (copy_zstr php contains c none s e))
            (
              refl,
              Faithful-make (pointer_to_hash_key s.ptr) (string (copy_cstr php s.val s.h c).0)
                  c.already_allocated f t tt,
            )
      | inr (x, e) ↦
          subst (λ q. (q.0.val ≡ s.val) × Faithful q.1.already_allocated)
            (sym (copy_zstr php contains c (some x) s e))
            (as_string-text_of x ∙ ap text_of (found-Good (string s) x s.ptr c f t tt e).0, f)
    ]

    pub string-Good :
        (s : ZendString) (c : Copy)
        → Faithful c.already_allocated
        → Text s
        → Good (text s.val) (copy_zval php contains (string s) c)
    unfolding plain
    string-Good s c f t = elim (Option-cases (get_already_allocated contains c s.ptr (string s))) [
      | inl e ↦
          let (same, f') = key-Good s c f t in
          subst (Good (text s.val)) (sym (copy_string php contains c none s e))
            (ap text same, tt, f')
      | inr (x, e) ↦
          let (p, n) = found-Good (string s) x s.ptr c f t tt e in
          subst (Good (text s.val)) (sym (copy_string php contains c (some x) s e)) (p, n, f)
    ]
