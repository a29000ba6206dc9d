-- ===== src/Persist/Mode.antt =====
-- Values in serialization mode.
use immutable_cache_pecl.Prelude.{
  if_true, ℕ, ◌≡◌, refl, ap, sym, ◌∙◌, Bool, true, false, List, Option, some, length, Option-cases,
  inl, inr,
}
use immutable_cache_pecl.Persist.Value.{
  Zval, is_counted, undef, scalar, string, packed, hashed, object, resource, reference,
}
use immutable_cache_pecl.Persist.Calc.{Php, Calc, add_size, calc_serialize, calc_early, calc_zval}
use immutable_cache_pecl.Persist.Copy.{value, serialized, Copy, copy_cstr, copy_zval}
use immutable_cache_pecl.Persist.Equations.{
  calc_string, calc_packed, calc_hashed, calc_object, calc_resource, calc_reference,
}
use immutable_cache_pecl.Persist.Tables.{not_both}
use immutable_cache_pecl.Persist.Entries.{copy_serialize, copy_value}

module _ {R : Type 0} (php : Php R) (serializer : Option R) (contains : ℕ → Bool) where
  -- a value is copied unless it is to be serialized
  pub copy_value_plain :
      (ctxt : Calc) (z : Zval) (c : Copy)
      → ctxt.use_serialization ≡ false
      → copy_value php serializer contains ctxt z c
        ≡ (value (copy_zval php contains z c).0, (copy_zval php contains z c).1)
  unfolding copy_value copy_zval
  copy_value_plain ctxt undef c e = refl
  copy_value_plain ctxt (scalar n) c e = refl
  copy_value_plain ctxt (string s) c e = rw e refl
  copy_value_plain ctxt (packed ptr head zs) c e = rw e refl
  copy_value_plain ctxt (hashed ptr head bs) c e = rw e refl
  copy_value_plain ctxt (object ptr) c e = rw e refl
  copy_value_plain ctxt (resource ptr) c e = rw e refl
  copy_value_plain ctxt (reference ptr) c e = rw e refl

  -- in serialization mode, a value with an address is serialized
  early_serialize :
      (z : Zval) (ptr : ℕ) (c : Calc)
      → c.use_serialization ≡ true
      → calc_early php serializer contains z ptr c ≡ (
        some (calc_serialize php serializer contains z c).0,
        (calc_serialize php serializer contains z c).1,
      )
  unfolding calc_early
  early_serialize z ptr c ser = if_true c.use_serialization _ _ ser

  pub calc_serialized :
      (z : Zval) (c : Calc)
      → is_counted z ≡ true
      → c.use_serialization ≡ true
      → calc_zval php serializer contains z c ≡ calc_serialize php serializer contains z c
  calc_serialized undef c n ser = absurd (not_both (sym n))
  calc_serialized (scalar _) c n ser = absurd (not_both (sym n))
  calc_serialized (string s) c n ser =
      calc_string php serializer contains c _ s (early_serialize _ s.ptr c ser)
  calc_serialized (packed ptr head zs) c n ser =
      calc_packed php serializer contains c _ ptr head zs (early_serialize _ ptr c ser)
  calc_serialized (hashed ptr head bs) c n ser =
      calc_hashed php serializer contains c _ ptr head bs (early_serialize _ ptr c ser)
  calc_serialized (object ptr) c n ser =
      calc_object php serializer contains c _ ptr (early_serialize _ ptr c ser)
  calc_serialized (resource ptr) c n ser =
      calc_resource php serializer contains c _ ptr (early_serialize _ ptr c ser)
  calc_serialized (reference ptr) c n ser =
      calc_reference php serializer contains c _ ptr (early_serialize _ ptr c ser)

  copy_value_serialized :
      (ctxt : Calc) (z : Zval) (c : Copy)
      → is_counted z ≡ true
      → ctxt.use_serialization ≡ true
      → copy_value php serializer contains ctxt z c
        ≡ copy_serialize php serializer contains ctxt.serialized_str z c
  unfolding copy_value
  copy_value_serialized ctxt undef c n ser = absurd (not_both (sym n))
  copy_value_serialized ctxt (scalar _) c n ser = absurd (not_both (sym n))
  copy_value_serialized ctxt (string s) c n ser = if_true ctxt.use_serialization _ _ ser
  copy_value_serialized ctxt (packed ptr head zs) c n ser = if_true ctxt.use_serialization _ _ ser
  copy_value_serialized ctxt (hashed ptr head bs) c n ser = if_true ctxt.use_serialization _ _ ser
  copy_value_serialized ctxt (object ptr) c n ser = if_true ctxt.use_serialization _ _ ser
  copy_value_serialized ctxt (resource ptr) c n ser = if_true ctxt.use_serialization _ _ ser
  copy_value_serialized ctxt (reference ptr) c n ser = if_true ctxt.use_serialization _ _ ser

  -- What becomes of a value in serialization mode: nothing is done to one without an address, and
  -- the others are serialized.
  pub data Mode (z : Zval) (c : Calc) (d : Copy) : Type 0 where
    kept :
        is_counted z ≡ false
        → calc_zval php serializer contains z c ≡ (true, c)
        → ((ctxt : Calc) → copy_value php serializer contains ctxt z d ≡ (value z, d))
        → Mode z c d
    as_string_of :
        (buf : List ℕ)
        → php.serialize serializer z ≡ some buf
        → calc_zval php serializer contains z c ≡ (
          true,
          add_size php (php.str_size (length buf)) (record c { serialized_str = some buf }),
        )
        → copy_value php serializer contains
            (add_size php (php.str_size (length buf)) (record c { serialized_str = some buf }))
            z
            d
          ≡ (serialized (copy_cstr php buf 0 d).0, (copy_cstr php buf 0 d).1)
        → Mode z c d

  serialized-Mode :
      (z : Zval) (c : Calc) (d : Copy)
      → is_counted z ≡ true
      → c.use_serialization ≡ true
      → (calc_zval php serializer contains z c).0 ≡ true
      → Mode z c d
  unfolding calc_serialize copy_serialize
  serialized-Mode z c d n ser ok = elim (Option-cases (php.serialize serializer z)) [
    | inl failed ↦ absurd (
        not_both
          (sym ok ∙ ap (λ r. r.0) (calc_serialized z c n ser) ∙ rw (calc_serialize, failed) refl))
    | inr (buf, e) ↦
        as_string_of buf e (calc_serialized z c n ser ∙ rw (calc_serialize, e) refl)
          (copy_value_serialized _ z d n ser)
  ]

  pub mode :
      (z : Zval) (c : Calc) (d : Copy)
      → c.use_serialization ≡ true
      → (calc_zval php serializer contains z c).0 ≡ true
      → Mode z c d
  unfolding calc_zval copy_value
  mode undef c d ser ok = kept refl refl (λ ctxt. refl)
  mode (scalar n) c d ser ok = kept refl refl (λ ctxt. refl)
  mode (string s) c d ser ok = serialized-Mode (string s) c d refl ser ok
  mode (packed ptr head zs) c d ser ok = serialized-Mode (packed ptr head zs) c d refl ser ok
  mode (hashed ptr head bs) c d ser ok = serialized-Mode (hashed ptr head bs) c d refl ser ok
  mode (object ptr) c d ser ok = serialized-Mode (object ptr) c d refl ser ok
  mode (resource ptr) c d ser ok = serialized-Mode (resource ptr) c d refl ser ok
  mode (reference ptr) c d ser ok = serialized-Mode (reference ptr) c d refl ser ok
