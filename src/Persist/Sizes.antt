-- ===== src/Persist/Sizes.antt =====
-- The size that is calculated is the size that is copied.
use immutable_cache_pecl.Prelude.{ℕ, ◌≡◌, refl, sym, Bool, true, Option}
use immutable_cache_pecl.Persist.Value.{
  Head, Zval, is_undef, undef, scalar, string, packed, hashed, object, resource, reference, Elems,
  no_elem, elem, Buckets, no_bucket, keyed, indexed, indirect,
}
use immutable_cache_pecl.Persist.Calc.{Php, Calc, calc_str, calc_zval, calc_elems, calc_buckets}
use immutable_cache_pecl.Persist.Equations.{after_object, after_resource}
use immutable_cache_pecl.Persist.Copy.{Copy, copy_zval, copy_elems, copy_buckets, start_slots}
use immutable_cache_pecl.Persist.Tables.{not_both}
use immutable_cache_pecl.Persist.Agreement.{Agrees, Goes}
use immutable_cache_pecl.Persist.Steps.{
  str-Goes, string-Goes, foreign-Goes, then-Goes, undef-Goes, pick-Goes, picks-Goes,
}
use immutable_cache_pecl.Persist.TableSteps.{packed-Goes, hashed-Goes}

module _ {R : Type 0} (php : Php R) (serializer : Option R) (contains : ℕ → Bool) (base : ℕ) where
  mutual
    unfolding calc_zval copy_zval

    pub zval-Goes :
        (z : Zval) (c : Calc) (d : Copy)
        → Agrees php serializer contains base c d
        → (calc_zval php serializer contains z c).0 ≡ true
        → Goes php serializer contains base c
            (calc_zval php serializer contains z c).1
            (copy_zval php contains z d).1
    zval-Goes undef c d a ok = (a, λ k t. t)
    zval-Goes (scalar n) c d a ok = (a, λ k t. t)
    zval-Goes (string s) c d a ok = string-Goes php serializer contains base c d a s
    zval-Goes (packed ptr head zs) c d a ok =
        packed-Goes php serializer contains base c d a ptr head zs
          (λ c' d' a' ok'. elems-Goes zs 0 (start_slots php head) c' d' a' ok') ok
    zval-Goes (hashed ptr head bs) c d a ok =
        hashed-Goes php serializer contains base c d a ptr head bs
          (λ c' d' a' ok'. buckets-Goes bs 0 (start_slots php head) c' d' a' ok') ok
    zval-Goes (object ptr) c d a ok =
        foreign-Goes php serializer contains base c d a (object ptr) ptr
          (after_object php serializer contains) refl refl refl refl ok
    zval-Goes (resource ptr) c d a ok =
        foreign-Goes php serializer contains base c d a (resource ptr) ptr
          (after_resource php serializer contains) refl refl refl refl ok
    zval-Goes (reference ptr) c d a ok =
        foreign-Goes php serializer contains base c d a (reference ptr) ptr
          (after_object php serializer contains) refl refl refl refl ok

    pub elems-Goes :
        (zs : Elems) (idx : ℕ) (head : Head) (c : Calc) (d : Copy)
        → Agrees php serializer contains base c d
        → (calc_elems php serializer contains zs c).0 ≡ true
        → Goes php serializer contains base c
            (calc_elems php serializer contains zs c).1
            (copy_elems php contains zs idx head d).2
    elems-Goes no_elem idx head c d a ok = (a, λ k s. s)
    elems-Goes (elem z zs) idx head c d a ok =
        pick-Goes php serializer contains base c d a (is_undef z) _ _ _
          (λ u.
            then-Goes php serializer contains base c d a (calc_zval php serializer contains z c)
              (calc_elems php serializer contains zs) d _ ok
              (λ _. undef-Goes php serializer contains base c d a z u) (elems-Goes zs _ _ _ _))
          (λ u.
            then-Goes php serializer contains base c d a (calc_zval php serializer contains z c)
              (calc_elems php serializer contains zs) _ _ ok (zval-Goes z c d a)
              (elems-Goes zs _ _ _ _))

    pub buckets-Goes :
        (bs : Buckets) (idx : ℕ) (head : Head) (c : Calc) (d : Copy)
        → Agrees php serializer contains base c d
        → (calc_buckets php serializer contains bs c).0 ≡ true
        → Goes php serializer contains base c
            (calc_buckets php serializer contains bs c).1
            (copy_buckets php contains bs idx head d).2
    buckets-Goes no_bucket idx head c d a ok = (a, λ k s. s)
    buckets-Goes (keyed k z bs) idx head c d a ok =
        let (b, keeps) = str-Goes php serializer contains base c d a k in
        picks-Goes php serializer contains base c d a (is_undef z) _ _ _ _ ok
          (buckets-Goes bs _ _ _ _ a)
          (λ ok'.
            let (r, keeps') =
              then-Goes php serializer contains base _ _ b
                (calc_zval php serializer contains z (calc_str php serializer contains k c))
                (calc_buckets php serializer contains bs) _ _ ok' (zval-Goes z _ _ b)
                (buckets-Goes bs _ _ _ _) in
            (r, λ j t. keeps' j (keeps j t)))
    buckets-Goes (indexed h z bs) idx head c d a ok =
        picks-Goes php serializer contains base c d a (is_undef z) _ _ _ _ ok
          (buckets-Goes bs _ _ _ _ a)
          (λ ok'.
            then-Goes php serializer contains base c d a (calc_zval php serializer contains z c)
              (calc_buckets php serializer contains bs) _ _ ok' (zval-Goes z _ _ a)
              (buckets-Goes bs _ _ _ _))
    buckets-Goes (indirect bs) idx head c d a ok = absurd (not_both (sym ok))
