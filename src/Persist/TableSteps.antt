-- ===== src/Persist/TableSteps.antt =====
-- The calculation and the copy of an array, given those of its slots.
use immutable_cache_pecl.Prelude.{
  ℕ, ◌≡◌, ap, sym, ◌∙◌, Bool, true, false, Option, ◌==◌, if◌then◌else◌,
}
use immutable_cache_pecl.Persist.Value.{
  Head, Zval, packed, hashed, Elems, Buckets, num_elems, num_buckets,
}
use immutable_cache_pecl.Persist.Memo.{pointer_to_hash_key}
use immutable_cache_pecl.Persist.Calc.{Php, Calc, add_size, calc_zval, calc_elems, calc_buckets}
use immutable_cache_pecl.Persist.Equations.{calc_packed, calc_hashed, copy_packed, copy_hashed}
use immutable_cache_pecl.Persist.Copy.{
  Copy, add_already_allocated, alloc, copy_zval, copy_elems, copy_buckets, start_slots,
}
use immutable_cache_pecl.Persist.Tables.{seen-note_self}
use immutable_cache_pecl.Persist.Agreement.{
  Agrees, Goes, early, grow, noted, fresh-Goes, again, met, fresh,
}

module _ {R : Type 0} (php : Php R) (serializer : Option R) (contains : ℕ → Bool) (base : ℕ) where
  module _ (c : Calc) (d : Copy) (a : Agrees php serializer contains base c d) where
    -- the table of an array, once more when the array is finished
    twice-Goes :
        (ptr : ℕ) (before after : Zval)
        → Goes php serializer contains base c
            (add_size php php.sizeof_table (noted php serializer contains base ptr c))
            (add_already_allocated ptr after
              (add_already_allocated ptr before (alloc php php.sizeof_table d)))
    twice-Goes ptr before after =
        let (b, more) = fresh-Goes php serializer contains base php.sizeof_table ptr before c d a in
        (
          again php serializer contains base ptr after _ _ b
              (seen-note_self (pointer_to_hash_key ptr) c.already_counted),
          more,
        )

    -- an array with slots: `c'` and `d'` are what the slots lead to
    slots-Goes :
        (ptr size : ℕ) (before after : Zval) (c' : Calc) (d' : Copy)
        → (Agrees php serializer contains base
              (add_size php size
                (add_size php php.sizeof_table (noted php serializer contains base ptr c)))
              (alloc php size (add_already_allocated ptr before (alloc php php.sizeof_table d)))
            → Goes php serializer contains base
                (add_size php size
                  (add_size php php.sizeof_table (noted php serializer contains base ptr c)))
                c'
                d')
        → Goes php serializer contains base c c' (add_already_allocated ptr after d')
    slots-Goes ptr size before after c' d' ih =
        let (b, more) = fresh-Goes php serializer contains base php.sizeof_table ptr before c d a in
        let (b', more') = ih (grow php serializer contains base size _ _ b) in
        (
          again php serializer contains base ptr after _ _ b' (
              more' (pointer_to_hash_key ptr)
                (seen-note_self (pointer_to_hash_key ptr) c.already_counted)),
          λ k s. more' k (more k s),
        )

    array-Goes :
        (b : Bool) (ptr size : ℕ) (before empty after : Zval) (r : Bool × Calc) (d' : Copy)
        → (Agrees php serializer contains base
              (add_size php size
                (add_size php php.sizeof_table (noted php serializer contains base ptr c)))
              (alloc php size (add_already_allocated ptr before (alloc php php.sizeof_table d)))
            → r.0 ≡ true
            → Goes php serializer contains base
                (add_size php size
                  (add_size php php.sizeof_table (noted php serializer contains base ptr c)))
                r.1
                d')
        → (if◌then◌else◌ {A = Bool × Calc} b
            (true, add_size php php.sizeof_table (noted php serializer contains base ptr c))
            r).0
          ≡ true
        → Goes php serializer contains base c
            (if◌then◌else◌ {A = Bool × Calc} b
              (true, add_size php php.sizeof_table (noted php serializer contains base ptr c))
              r).1
            (if◌then◌else◌ {A = Zval × Copy} b
              (
                empty,
                add_already_allocated ptr empty
                    (add_already_allocated ptr before (alloc php php.sizeof_table d)),
              )
              (after, add_already_allocated ptr after d')).1
    array-Goes true ptr size before empty after r d' ih ok = twice-Goes ptr before empty
    array-Goes false ptr size before empty after r d' ih ok =
        slots-Goes ptr size before after r.1 d' (λ a'. ih a' ok)

    pub packed-Goes :
        (ptr : ℕ) (head : Head) (zs : Elems)
        → ((c' : Calc) (d' : Copy)
            → Agrees php serializer contains base c' d'
            → (calc_elems php serializer contains zs c').0 ≡ true
            → Goes php serializer contains base c'
                (calc_elems php serializer contains zs c').1
                (copy_elems php contains zs 0 (start_slots php head) d').2)
        → (calc_zval php serializer contains (packed ptr head zs) c).0 ≡ true
        → Goes php serializer contains base c
            (calc_zval php serializer contains (packed ptr head zs) c).1
            (copy_zval php contains (packed ptr head zs) d).1
    packed-Goes ptr head zs ih ok =
        elim (early php serializer contains base (packed ptr head zs) ptr c d a) [
          | met x e f ↦
              rw
                (
                  calc_packed php serializer contains c _ ptr head zs e,
                  copy_packed php contains d _ ptr head zs f,
                )
                (a, λ k t. t)
          | fresh e f ↦
              rw
                (
                  calc_packed php serializer contains c _ ptr head zs e,
                  copy_packed php contains d _ ptr head zs f,
                )
                (array-Goes (num_elems zs == 0) ptr (php.packed_used_size head (num_elems zs)) _ _ _
                  _ _ (λ a'. ih _ _ a')
                  (sym (ap (λ r. r.0) (calc_packed php serializer contains c _ ptr head zs e))
                    ∙ ok))
        ]

    pub hashed-Goes :
        (ptr : ℕ) (head : Head) (bs : Buckets)
        → ((c' : Calc) (d' : Copy)
            → Agrees php serializer contains base c' d'
            → (calc_buckets php serializer contains bs c').0 ≡ true
            → Goes php serializer contains base c'
                (calc_buckets php serializer contains bs c').1
                (copy_buckets php contains bs 0 (start_slots php head) d').2)
        → (calc_zval php serializer contains (hashed ptr head bs) c).0 ≡ true
        → Goes php serializer contains base c
            (calc_zval php serializer contains (hashed ptr head bs) c).1
            (copy_zval php contains (hashed ptr head bs) d).1
    hashed-Goes ptr head bs ih ok =
        elim (early php serializer contains base (hashed ptr head bs) ptr c d a) [
          | met x e f ↦
              rw
                (
                  calc_hashed php serializer contains c _ ptr head bs e,
                  copy_hashed php contains d _ ptr head bs f,
                )
                (a, λ k t. t)
          | fresh e f ↦
              rw
                (
                  calc_hashed php serializer contains c _ ptr head bs e,
                  copy_hashed php contains d _ ptr head bs f,
                )
                (array-Goes (num_buckets bs == 0) ptr (php.used_size head (num_buckets bs)) _ _ _ _
                  _ (λ a'. ih _ _ a')
                  (sym (ap (λ r. r.0) (calc_hashed php serializer contains c _ ptr head bs e))
                    ∙ ok))
        ]
