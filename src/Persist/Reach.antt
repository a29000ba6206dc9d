-- ===== src/Persist/Reach.antt =====
-- Where the copy of an entry ends.
use immutable_cache_pecl.Prelude.{
  ℕ, ◌+◌, ◌%◌, ◌^◌, ◌≡◌, refl, ap, sym, ◌∙◌, Bool, true, false, ◌&&◌, List, [], Option, none, some,
  length, arith, Bool-cases, inl, inr, if◌then◌else◌,
}
use mathlib.Core.Path.{subst}
use immutable_cache_pecl.Cache.Entry.{ZendString, Entry}
use immutable_cache_pecl.Persist.Value.{Zval}
use immutable_cache_pecl.Persist.Calc.{Php, Calc, add_size, calc_str, calc_memoize, calc_zval, calc}
use immutable_cache_pecl.Persist.Copy.{
  Shared, value, Copy, alloc, copy_cstr, get_or_copy_zstr, copy_zval,
}
use immutable_cache_pecl.Persist.Tables.{Same}
use immutable_cache_pecl.Persist.Agreement.{Agrees, grow}
use immutable_cache_pecl.Persist.Steps.{str-Goes}
use immutable_cache_pecl.Persist.Sizes.{zval-Goes}
use immutable_cache_pecl.Persist.Entries.{
  init_context, memoization, prepare, copy_value, persist_copy, start,
}
use immutable_cache_pecl.Persist.Mode.{copy_value_plain, kept, as_string_of, mode}
use immutable_cache_pecl.Persist.Prepared.{prepare-Prepared, counting, serializing}

module _ {R : Type 0} (php : Php R) (serializer : Option R) (contains : ℕ → Bool) where
  abbrev Reaches : ℕ → Calc → Copy → Type 0
  Reaches base c d = d.alloc_cur % 2 ^ 64 ≡ (base + c.size) % 2 ^ 64

  -- the context of the calculation, with and without serialization
  abbrev pub counts : Entry Zval → Bool × Calc
  counts orig =
      calc php serializer contains orig (init_context (memoization serializer orig.val) false)

  abbrev pub serializes : Entry Zval → Bool × Calc
  serializes orig = calc php serializer contains orig (init_context false true)

  Same-start : (b : Bool) → Same (if b then some [] else none) (if b && true then some [] else none)
  Same-start true = λ k. refl
  Same-start false = tt

  -- the copy of an entry
  abbrev pub copied : Entry Zval → ℕ → Calc → Entry Shared × Copy
  copied orig address ctxt =
      persist_copy php serializer contains ctxt orig
        (start php serializer contains address orig ctxt.use_serialization)

  -- the state behind the copy of the key
  abbrev pub keyed : Entry Zval → Copy → ZendString × Copy
  keyed orig d = get_or_copy_zstr php contains orig.key (alloc php php.sizeof_entry d)

  begin :
      (address : ℕ) (orig : Entry Zval) (memo : Bool)
      → memo ≡ memoization serializer orig.val
      → Agrees php serializer contains address
          (init_context memo false)
          (start php serializer contains address orig false)
  begin address orig memo e = record {
    reach = omega arith;
    same =
        subst
          (λ b.
            Same (if b then some [] else none)
              (if memoization serializer orig.val && true then some [] else none))
          (sym e) (Same-start (memoization serializer orig.val));
    plain = refl;
  }

  pub counting-Goes :
      (address : ℕ) (orig : Entry Zval)
      → (counts orig).0 ≡ true
      → Agrees php serializer contains address
          (counts orig).1
          (copy_zval php contains orig.val
            (keyed orig (start php serializer contains address orig false)).1).1
  unfolding calc
  counting-Goes address orig ok =
      let grown =
        grow php serializer contains address php.sizeof_entry _ _ (begin address orig _ refl) in
      (zval-Goes php serializer contains address orig.val _ _
        (str-Goes php serializer contains address _ _ grown orig.key).0 ok).0

  -- a copy without serialization
  abbrev pub plain_copy : Entry Zval → Copy → Entry Shared × Copy
  plain_copy orig d =
      let (z, c) = copy_zval php contains orig.val (keyed orig d).1 in
      (
        record {
          addr = d.alloc_cur;
          key = (keyed orig d).0;
          val = value z;
          nhits = orig.nhits;
          ctime = orig.ctime;
          atime = orig.atime;
          mem_size = orig.mem_size;
        },
        c,
      )

  persist_copy_plain :
      (ctxt : Calc) (orig : Entry Zval) (d : Copy)
      → ctxt.use_serialization ≡ false
      → persist_copy php serializer contains ctxt orig d ≡ plain_copy orig d
  unfolding persist_copy
  persist_copy_plain ctxt orig d e =
      rw (copy_value_plain php serializer contains ctxt orig.val (keyed orig d).1 e) refl

  pub copied_plain :
      (ctxt : Calc) (orig : Entry Zval) (address : ℕ)
      → ctxt.use_serialization ≡ false
      → copied orig address ctxt
        ≡ plain_copy orig (start php serializer contains address orig false)
  copied_plain ctxt orig address e =
      persist_copy_plain ctxt orig _ e
      ∙ ap (λ u. plain_copy orig (start php serializer contains address orig u)) e

  counting-Reaches :
      (address : ℕ) (orig : Entry Zval)
      → (counts orig).0 ≡ true
      → Reaches address (counts orig).1 (copied orig address (counts orig).1).1
  counting-Reaches address orig ok =
      let a = counting-Goes address orig ok in
      subst (λ r. Reaches address (counts orig).1 r.1)
        (sym (copied_plain (counts orig).1 orig address a.plain)) a.reach

  -- the key in serialization mode: nothing is memoized
  pub calc_str_mode :
      (s : ZendString) (n : ℕ)
      → calc_str php serializer contains s (add_size php n (init_context false true))
        ≡ (record (calc_str php serializer contains s (add_size php n (init_context false false))) {
          use_serialization = true;
        })
  unfolding calc_str calc_memoize
  calc_str_mode s n = elim (Bool-cases (contains s.ptr)) [
    | inl inside ↦ rw inside refl
    | inr outside ↦ rw outside refl
  ]

  -- a value in serialization mode
  value-Reaches :
      (address : ℕ) (z : Zval) (c : Calc) (d : Copy)
      → Reaches address c d
      → c.use_serialization ≡ true
      → (calc_zval php serializer contains z c).0 ≡ true
      → Reaches address
          (calc_zval php serializer contains z c).1
          (copy_value php serializer contains (calc_zval php serializer contains z c).1 z d).1
        × ((calc_zval php serializer contains z c).1.use_serialization ≡ true)
  unfolding copy_cstr
  value-Reaches address z c d r ser ok = elim (mode php serializer contains z c d ser ok) [
    | kept simple e f ↦ (
      subst (λ q. Reaches address q.1 (copy_value php serializer contains q.1 z d).1) (sym e)
          (subst (λ x. Reaches address c x.1) (sym (f c)) r),
      ap (λ q. q.1.use_serialization) e ∙ ser,
    )
    | as_string_of buf s e f ↦ (
      subst (λ q. Reaches address q.1 (copy_value php serializer contains q.1 z d).1) (sym e)
          (subst
            (λ x.
              Reaches address
                (add_size php (php.str_size (length buf)) (record c { serialized_str = some buf }))
                x.1)
            (sym f) (omega (arith, r))),
      ap (λ q. q.1.use_serialization) e ∙ ser,
    )
  ]

  key_begin :
      (address : ℕ)
      → Agrees php serializer contains address
          (init_context false false)
          (record { alloc_cur = address; already_allocated = none })
  key_begin address = record { reach = omega arith; same = tt; plain = refl }

  key-Reaches :
      (address : ℕ) (orig : Entry Zval)
      → Reaches address
          (calc_str php serializer contains orig.key
            (add_size php php.sizeof_entry (init_context false true)))
          (keyed orig (record { alloc_cur = address; already_allocated = none })).1
  key-Reaches address orig =
      let b = key_begin address in
      let a =
        (str-Goes php serializer contains address _ _
          (grow php serializer contains address php.sizeof_entry _ _ b) orig.key).0 in
      a.reach
      ∙ sym (ap (λ c. (address + c.size) % 2 ^ 64) (calc_str_mode orig.key php.sizeof_entry))

  no_memo :
      (b : Bool) → if◌then◌else◌ {A = Option (List (ℕ × Zval))} (b && false) (some []) none ≡ none
  no_memo true = refl
  no_memo false = refl

  pub start_serializing :
      (address : ℕ) (orig : Entry Zval)
      → start php serializer contains address orig true
        ≡ (record { alloc_cur = address; already_allocated = none })
  start_serializing address orig =
      ap (λ m. record { alloc_cur = address; already_allocated = m })
        (no_memo (memoization serializer orig.val))

  serializing-Reaches :
      (address : ℕ) (orig : Entry Zval)
      → (serializes orig).0 ≡ true
      → Reaches address (serializes orig).1 (copied orig address (serializes orig).1).1
  unfolding calc persist_copy
  serializing-Reaches address orig ok =
      let mode_kept = ap (λ c. c.use_serialization) (calc_str_mode orig.key php.sizeof_entry) in
      let (r, so) = value-Reaches address orig.val _ _ (key-Reaches address orig) mode_kept ok in
      subst
        (λ d.
          Reaches address (serializes orig).1
            (copy_value php serializer contains (serializes orig).1 orig.val (keyed orig d).1).1)
        (sym (ap (start php serializer contains address orig) so ∙ start_serializing address orig))
        r

  -- If the size of an entry can be calculated, a copy that starts at an address ends, modulo
  -- 2^64, at the address plus that size, whether the value is copied with shared strings and
  -- arrays once each, or serialized.
  pub persist_copy_end :
      (address : ℕ) (orig : Entry Zval) (ctxt : Calc)
      → prepare php serializer contains orig ≡ some ctxt
      → (persist_copy php serializer contains ctxt orig
            (start php serializer contains address orig ctxt.use_serialization)).1.alloc_cur
          % 2 ^ 64
        ≡ (address + ctxt.size) % 2 ^ 64
  persist_copy_end address orig ctxt e =
      elim (prepare-Prepared php serializer contains orig ctxt e) [
        | counting so is ok ↦
            subst (λ c. Reaches address c (copied orig address c).1) (sym is)
              (counting-Reaches address orig ok)
        | serializing is ok ↦
            subst (λ c. Reaches address c (copied orig address c).1) (sym is)
              (serializing-Reaches address orig ok)
      ]
