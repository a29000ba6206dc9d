-- ===== src/Persist/Arrays.antt =====
-- What a PHP program sees of a copied value, arrays included.
use immutable_cache_pecl.Prelude.{ℕ, ◌+◌, ◌%◌, ◌^◌, ◌≡◌, refl, ◌∙◌, Bool}
use immutable_cache_pecl.Sma.Words.{add64}
use immutable_cache_pecl.Persist.Value.{
  Head, Zval, is_undef, undef, scalar, string, packed, hashed, object, resource, reference, Elems,
  no_elem, elem, Buckets, no_bucket, keyed, indexed, indirect, Plain, int_key, text_key, plain,
  plain_elems, plain_buckets,
}
use immutable_cache_pecl.Persist.Calc.{Php}
use immutable_cache_pecl.Persist.Copy.{
  Copy, get_or_copy_zstr, copy_zval, start_slots, point_to, used_index,
}
use immutable_cache_pecl.Persist.Contents.{
  Faithful, Good, Coherent, CoherentElems, CoherentBuckets, key-Good, string-Good,
}
use immutable_cache_pecl.Persist.CopiedSlots.{
  slot_eq, keyed_eq, pick-Slots, num_elements-point_to, num_elements-used_index,
}
use immutable_cache_pecl.Persist.CopiedTables.{GoodElems, GoodBuckets, packed-Good, hashed-Good}

module _ (at : ℕ → Plain) where
  module _ {R : Type 0} (php : Php R) (contains : ℕ → Bool) where
    mutual
      unfolding Coherent copy_zval plain

      pub zval-Good :
          (z : Zval) (c : Copy)
          → Coherent at z
          → Faithful at c.already_allocated
          → Good at (plain z) (copy_zval php contains z c)
      zval-Good undef c k f = (refl, tt, f)
      zval-Good (scalar n) c k f = (refl, tt, f)
      zval-Good (string s) c k f = string-Good at php contains s c f k
      zval-Good (packed ptr head zs) c (l, n, k) f =
          packed-Good at php contains ptr head zs c f l n
            (λ c' f'. elems-Good zs 0 (start_slots php head) c' k f')
      zval-Good (hashed ptr head bs) c (l, n, k) f =
          hashed-Good at php contains ptr head bs c f l n
            (λ c' f'. buckets-Good bs 0 (start_slots php head) c' k f')
      zval-Good (object ptr) c k f = (refl, tt, f)
      zval-Good (resource ptr) c k f = (refl, tt, f)
      zval-Good (reference ptr) c k f = (refl, tt, f)

      elems-Good :
          (zs : Elems) (idx : ℕ) (head : Head) (c : Copy)
          → CoherentElems at zs
          → Faithful at c.already_allocated
          → GoodElems at php contains zs idx head c
      elems-Good no_elem idx head c k f = (refl, refl, f)
      elems-Good (elem z zs) idx head c (kz, ks) f =
          pick-Slots
            (λ q.
              (plain_elems q.0 idx ≡ plain_elems (elem z zs) idx)
              × (q.1.num_elements ≡ head.num_elements)
              × Faithful at q.2.already_allocated)
            (is_undef z) _ _
            (λ _.
              let (items, same, f') = elems-Good zs (idx + 1) head c ks f in
              (slot_eq (int_key idx) z z _ _ refl items, same, f'))
            (λ _.
              let (p, _, f₁) = zval-Good z c kz f in
              let (items, same, f') =
                elems-Good zs (idx + 1)
                  (used_index php idx ((idx + 1) % 2 ^ 32) (point_to php idx head))
                  (copy_zval php contains z c).1 ks f₁ in
              (
                slot_eq (int_key idx) _ z _ _ p items,
                same ∙ num_elements-used_index php idx ((idx + 1) % 2 ^ 32) idx head,
                f',
              ))

      buckets-Good :
          (bs : Buckets) (idx : ℕ) (head : Head) (c : Copy)
          → CoherentBuckets at bs
          → Faithful at c.already_allocated
          → GoodBuckets at php contains bs idx head c
      buckets-Good no_bucket idx head c k f = (refl, refl, f)
      buckets-Good (keyed k z bs) idx head c (t, kz, ks) f =
          pick-Slots
            (λ q.
              (plain_buckets q.0 ≡ plain_buckets (keyed k z bs))
              × (q.1.num_elements ≡ head.num_elements)
              × Faithful at q.2.already_allocated)
            (is_undef z) _ _
            (λ _.
              let (items, same, f') = buckets-Good bs (idx + 1) head c ks f in
              (slot_eq (text_key k.val) z z _ _ refl items, same, f'))
            (λ _.
              let (key, f₁) = key-Good at php contains k c f t in
              let (p, _, f₂) = zval-Good z (get_or_copy_zstr php contains k c).1 kz f₁ in
              let (items, same, f') =
                buckets-Good bs (idx + 1) (point_to php idx head)
                  (copy_zval php contains z (get_or_copy_zstr php contains k c).1).1 ks f₂ in
              (keyed_eq _ k.val _ z _ _ key p items, same ∙ num_elements-point_to php idx head, f'))
      buckets-Good (indexed h z bs) idx head c (kz, ks) f =
          pick-Slots
            (λ q.
              (plain_buckets q.0 ≡ plain_buckets (indexed h z bs))
              × (q.1.num_elements ≡ head.num_elements)
              × Faithful at q.2.already_allocated)
            (is_undef z) _ _
            (λ _.
              let (items, same, f') = buckets-Good bs (idx + 1) head c ks f in
              (slot_eq (int_key h) z z _ _ refl items, same, f'))
            (λ _.
              let (p, _, f₁) = zval-Good z c kz f in
              let (items, same, f') =
                buckets-Good bs (idx + 1) (used_index php h (add64 h 1) (point_to php idx head))
                  (copy_zval php contains z c).1 ks f₁ in
              (
                slot_eq (int_key h) _ z _ _ p items,
                same ∙ num_elements-used_index php h (add64 h 1) idx head,
                f',
              ))
      buckets-Good (indirect bs) idx head c k f =
          let (items, same, f') = buckets-Good bs (idx + 1) (point_to php idx head) c k f in
          (items, same ∙ num_elements-point_to php idx head, f')
