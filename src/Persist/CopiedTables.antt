-- ===== src/Persist/CopiedTables.antt =====
-- A copied array, given good copies of its slots.
use immutable_cache_pecl.Prelude.{
  ℕ, ◌≡◌, refl, ap, sym, ◌∙◌, Bool, true, false, none, some, ◌==◌, Option-cases, inl, inr,
  if◌then◌else◌, arith,
}
use mathlib.Core.Path.{subst}
use immutable_cache_pecl.Persist.Value.{
  Head, Zval, packed, hashed, Elems, no_elem, elem, Buckets, no_bucket, keyed, indexed, indirect,
  num_elems, num_buckets, Plain, entries, no_item, plain, plain_elems, plain_buckets,
}
use immutable_cache_pecl.Persist.Memo.{pointer_to_hash_key}
use immutable_cache_pecl.Persist.Calc.{Php}
use immutable_cache_pecl.Persist.Copy.{
  Copy, get_already_allocated, add_already_allocated, alloc, copy_zval, copy_elems, copy_buckets,
  empty_table, start_slots,
}
use immutable_cache_pecl.Persist.Equations.{copy_packed, copy_hashed, table}
use immutable_cache_pecl.Persist.Contents.{
  Leads, Faithful, Faithful-make, Good, found-Good, Counted,
}

module _ (at : ℕ → Plain) where
  module _ {R : Type 0} (php : Php R) (contains : ℕ → Bool) where
    pick-Good :
        (p : Plain) (b : Bool) (x y : Zval × Copy)
        → (b ≡ true → Good at p x)
        → (b ≡ false → Good at p y)
        → Good at p (if b then x else y)
    pick-Good p true x y f g = f refl
    pick-Good p false x y f g = g refl

    empty_elems : (zs : Elems) (i : ℕ) → (num_elems zs == 0) ≡ true → plain_elems zs i ≡ no_item
    unfolding plain_elems
    empty_elems no_elem i e = refl
    empty_elems (elem z zs) i e = absurd (ground arith)

    empty_buckets : (bs : Buckets) → (num_buckets bs == 0) ≡ true → plain_buckets bs ≡ no_item
    unfolding plain_buckets
    empty_buckets no_bucket e = refl
    empty_buckets (keyed _ _ bs) e = absurd (ground arith)
    empty_buckets (indexed _ _ bs) e = absurd (ground arith)
    empty_buckets (indirect bs) e = absurd (ground arith)

    -- the finished array takes the place of the one that was begun
    array-Good :
        (p : Plain) (ptr : ℕ) (z : Zval) (c : Copy)
        → Faithful at c.already_allocated
        → Leads at ptr p
        → plain z ≡ p
        → Counted z
        → Good at p (z, add_already_allocated ptr z c)
    unfolding add_already_allocated
    array-Good p ptr z c f l e n =
        (e, n, Faithful-make at (pointer_to_hash_key ptr) z c.already_allocated f (e ∙ l) n)

    -- good copies of the slots of an array
    abbrev pub GoodElems : Elems → ℕ → Head → Copy → Type 0
    GoodElems zs idx head c =
        let q : Elems × Head × Copy = copy_elems php contains zs idx head c in
        (plain_elems q.0 idx ≡ plain_elems zs idx)
        × (q.1.num_elements ≡ head.num_elements)
        × Faithful at q.2.already_allocated

    abbrev pub GoodBuckets : Buckets → ℕ → Head → Copy → Type 0
    GoodBuckets bs idx head c =
        let q : Buckets × Head × Copy = copy_buckets php contains bs idx head c in
        (plain_buckets q.0 ≡ plain_buckets bs)
        × (q.1.num_elements ≡ head.num_elements)
        × Faithful at q.2.already_allocated

    pub packed-Good :
        (ptr : ℕ) (head : Head) (zs : Elems) (c : Copy)
        → Faithful at c.already_allocated
        → Leads at ptr (entries (plain_elems zs 0))
        → Counted (packed ptr head zs)
        → ((c' : Copy)
            → Faithful at c'.already_allocated
            → GoodElems zs 0 (start_slots php head) c')
        → Good at (entries (plain_elems zs 0)) (copy_zval php contains (packed ptr head zs) c)
    unfolding plain
    packed-Good ptr head zs c f l n ih =
        let z = packed ptr head zs in
        let p = entries (plain_elems zs 0) in
        elim (Option-cases (get_already_allocated contains c ptr z)) [
          | inr (x, e) ↦
              let (same, m) = found-Good at php contains z x ptr c f l n e in
              subst (Good at p) (sym (copy_packed php contains c (some x) ptr head zs e))
                (same, m, f)
          | inl e ↦
              let begun = table php contains c none ptr head (packed c.alloc_cur head zs) in
              let (_, _, f') =
                array-Good p ptr (packed c.alloc_cur head zs) (alloc php php.sizeof_table c) f l
                  refl n in
              subst (Good at p) (sym (copy_packed php contains c none ptr head zs e)) (
                pick-Good p (num_elems zs == 0) _ _
                  (λ none_left.
                    array-Good p ptr (empty_table php c.alloc_cur head) begun f' l
                      (ap entries (sym (empty_elems zs 0 none_left))) (λ _. refl))
                  (λ _.
                    let (items, same, f'') = ih _ f' in
                    array-Good p ptr _ _ f'' l (ap entries items)
                      (λ zero. items ∙ n (sym same ∙ zero))))
        ]

    pub hashed-Good :
        (ptr : ℕ) (head : Head) (bs : Buckets) (c : Copy)
        → Faithful at c.already_allocated
        → Leads at ptr (entries (plain_buckets bs))
        → Counted (hashed ptr head bs)
        → ((c' : Copy)
            → Faithful at c'.already_allocated
            → GoodBuckets bs 0 (start_slots php head) c')
        → Good at (entries (plain_buckets bs)) (copy_zval php contains (hashed ptr head bs) c)
    unfolding plain
    hashed-Good ptr head bs c f l n ih =
        let z = hashed ptr head bs in
        let p = entries (plain_buckets bs) in
        elim (Option-cases (get_already_allocated contains c ptr z)) [
          | inr (x, e) ↦
              let (same, m) = found-Good at php contains z x ptr c f l n e in
              subst (Good at p) (sym (copy_hashed php contains c (some x) ptr head bs e))
                (same, m, f)
          | inl e ↦
              let begun = table php contains c none ptr head (hashed c.alloc_cur head bs) in
              let (_, _, f') =
                array-Good p ptr (hashed c.alloc_cur head bs) (alloc php php.sizeof_table c) f l
                  refl n in
              subst (Good at p) (sym (copy_hashed php contains c none ptr head bs e)) (
                pick-Good p (num_buckets bs == 0) _ _
                  (λ none_left.
                    array-Good p ptr (empty_table php c.alloc_cur head) begun f' l
                      (ap entries (sym (empty_buckets bs none_left))) (λ _. refl))
                  (λ _.
                    let (items, same, f'') = ih _ f' in
                    array-Good p ptr _ _ f'' l (ap entries items)
                      (λ zero. items ∙ n (sym same ∙ zero))))
        ]
