-- ===== src/Persist/Immutable.antt =====
-- What `immutable_cache_persist` puts into shared memory cannot change: there are no objects, no
-- resources and no references in it.
use immutable_cache_pecl.Prelude.{ℕ, suc, ◌+◌, ◌≡◌, refl, sym, Bool, true, false, Option}
use immutable_cache_pecl.Persist.Value.{
  Zval, is_undef, undef, scalar, string, packed, hashed, object, resource, reference, Elems,
  no_elem, elem, Buckets, no_bucket, keyed, indexed, indirect, Plain, plain, plain_elems,
  plain_buckets,
}
use immutable_cache_pecl.Persist.Memo.{pointer_to_hash_key}
use immutable_cache_pecl.Persist.Tables.{not_both}
use immutable_cache_pecl.Persist.Calc.{Php, Calc, calc_str, calc_zval, calc_elems, calc_buckets}
use immutable_cache_pecl.Persist.Equations.{after_object, after_resource}
use immutable_cache_pecl.Persist.Contents.{Coherent, CoherentElems, CoherentBuckets}
use immutable_cache_pecl.Persist.Sealed.{
  Sealed, SealedItems, weight, weight_items, Alone, AloneElems, AloneBuckets, Awaits, Awaits-Grows,
  Grows-trans,
}
use immutable_cache_pecl.Persist.Sealing.{Done, stay, str-Done, string-Done, foreign-Done}
use immutable_cache_pecl.Persist.UsedSlots.{slot-Done, pick-Done, behind-Done}
use immutable_cache_pecl.Persist.Slots.{
  at_index-Sealed, at_text-Sealed, at_index-weight, at_text-weight, packed-Done, hashed-Done,
}

module _ {R : Type 0} (php : Php R) (serializer : Option R) (contains : ℕ → Bool) (at : ℕ → Plain)
    (inside : (ptr : ℕ) → contains ptr ≡ true → Sealed (at (pointer_to_hash_key ptr))) where
  mutual
    unfolding calc_zval plain Coherent Alone Sealed

    pub zval-Done :
        (z : Zval) (c : Calc)
        → Coherent at z
        → Alone at z
        → c.use_serialization ≡ false
        → Awaits at (suc (weight (plain z))) c.already_counted
        → (calc_zval php serializer contains z c).0 ≡ true
        → Done php serializer contains at inside
            (Sealed (plain z))
            c
            (calc_zval php serializer contains z c).1
    zval-Done undef c k a off waits ok = stay php serializer contains at inside c off tt
    zval-Done (scalar n) c k a off waits ok = stay php serializer contains at inside c off tt
    zval-Done (string s) c k a off waits ok =
        string-Done php serializer contains at inside s c k off
    zval-Done (packed ptr head zs) c k a off waits ok =
        packed-Done php serializer contains at inside ptr head zs c k.0 off waits
          (λ c' off' waits' ok'. elems-Done zs 0 c' k.2 a off' waits' ok') ok
    zval-Done (hashed ptr head bs) c k a off waits ok =
        hashed-Done php serializer contains at inside ptr head bs c k.0 off waits
          (λ c' off' waits' ok'. buckets-Done bs c' k.2 a off' waits' ok') ok
    zval-Done (object ptr) c k a off waits ok = absurd (
        foreign-Done php serializer contains at inside (object ptr) ptr c a refl off waits
          (after_object php serializer contains) refl refl ok)
    zval-Done (resource ptr) c k a off waits ok = absurd (
        foreign-Done php serializer contains at inside (resource ptr) ptr c a refl off waits
          (after_resource php serializer contains) refl refl ok)
    zval-Done (reference ptr) c k a off waits ok = absurd (
        foreign-Done php serializer contains at inside (reference ptr) ptr c a refl off waits
          (after_object php serializer contains) refl refl ok)

    pub elems-Done :
        (zs : Elems) (i : ℕ) (c : Calc)
        → CoherentElems at zs
        → AloneElems at zs
        → c.use_serialization ≡ false
        → Awaits at (suc (weight_items (plain_elems zs i))) c.already_counted
        → (calc_elems php serializer contains zs c).0 ≡ true
        → Done php serializer contains at inside
            (SealedItems (plain_elems zs i))
            c
            (calc_elems php serializer contains zs c).1
    elems-Done no_elem i c k a off waits ok = stay php serializer contains at inside c off tt
    elems-Done (elem z zs) i c (k, ks) (a, as') off waits ok =
        let (below, above) = at_index-weight i z (plain z) (plain_elems zs (i + 1)) in
        slot-Done php serializer contains at inside z (plain_elems (elem z zs) i)
          (plain_elems zs (i + 1)) (calc_elems php serializer contains zs) below above
          (at_index-Sealed i z (plain z) (plain_elems zs (i + 1)))
          (λ c' off' waits' ok'. zval-Done z c' k a off' waits' ok')
          (λ c' off' waits' ok'. elems-Done zs (i + 1) c' ks as' off' waits' ok') c off waits ok

    pub buckets-Done :
        (bs : Buckets) (c : Calc)
        → CoherentBuckets at bs
        → AloneBuckets at bs
        → c.use_serialization ≡ false
        → Awaits at (suc (weight_items (plain_buckets bs))) c.already_counted
        → (calc_buckets php serializer contains bs c).0 ≡ true
        → Done php serializer contains at inside
            (SealedItems (plain_buckets bs))
            c
            (calc_buckets php serializer contains bs c).1
    buckets-Done no_bucket c k a off waits ok = stay php serializer contains at inside c off tt
    buckets-Done (keyed key z bs) c (t, k, ks) (a, as') off waits ok =
        let (below, above) = at_text-weight key.val z (plain z) (plain_buckets bs) in
        let both = at_text-Sealed key.val z (plain z) (plain_buckets bs) in
        let items = plain_buckets (keyed key z bs) in
        pick-Done php serializer contains at inside (is_undef z) c _ _ ok
          (λ unused ok'.
            behind-Done php serializer contains at inside z items (plain_buckets bs)
              (calc_buckets php serializer contains bs) c unused below both
              (λ c' off' waits' ok''. buckets-Done bs c' ks as' off' waits' ok'') off waits ok')
          (λ used ok'.
            let s = str-Done php serializer contains at inside key c t off in
            let c₁ = calc_str php serializer contains key c in
            let d =
              slot-Done php serializer contains at inside z items (plain_buckets bs)
                (calc_buckets php serializer contains bs) below above both
                (λ c' off' waits' ok''. zval-Done z c' k a off' waits' ok'')
                (λ c' off' waits' ok''. buckets-Done bs c' ks as' off' waits' ok'') c₁ s.off
                (Awaits-Grows at (suc (weight_items items)) c.already_counted c₁.already_counted
                  waits s.grows)
                ok' in
            record {
              sealed = d.sealed;
              off = d.off;
              grows = Grows-trans at c.already_counted c₁.already_counted _ s.grows d.grows;
            })
    buckets-Done (indexed h z bs) c (k, ks) (a, as') off waits ok =
        let (below, above) = at_index-weight h z (plain z) (plain_buckets bs) in
        let both = at_index-Sealed h z (plain z) (plain_buckets bs) in
        let items = plain_buckets (indexed h z bs) in
        pick-Done php serializer contains at inside (is_undef z) c _ _ ok
          (λ unused ok'.
            behind-Done php serializer contains at inside z items (plain_buckets bs)
              (calc_buckets php serializer contains bs) c unused below both
              (λ c' off' waits' ok''. buckets-Done bs c' ks as' off' waits' ok'') off waits ok')
          (λ used ok'.
            slot-Done php serializer contains at inside z items (plain_buckets bs)
              (calc_buckets php serializer contains bs) below above both
              (λ c' off' waits' ok''. zval-Done z c' k a off' waits' ok'')
              (λ c' off' waits' ok''. buckets-Done bs c' ks as' off' waits' ok'') c off waits ok')
    buckets-Done (indirect bs) c k a off waits ok = absurd (not_both (sym ok))
