-- ===== src/Persist/Equations.antt =====
-- The clauses of the calculation and of the copy, when it is known what is found at a pointer.
use immutable_cache_pecl.Prelude.{
  ℕ, ◌≡◌, refl, ap, ◌∙◌, Bool-cases, inl, inr, Bool, true, false, Option, none, some, length, ◌==◌,
  if◌then◌else◌,
}
use immutable_cache_pecl.Cache.Entry.{ZendString}
use immutable_cache_pecl.Persist.Value.{
  Head, Zval, string, packed, hashed, object, resource, reference, Elems, Buckets, num_elems,
  num_buckets,
}
use immutable_cache_pecl.Persist.Calc.{
  Php, Calc, add_size, ask_serialization, calc_memoize, calc_str, calc_early, calc_zval, calc_elems,
  calc_buckets,
}
use immutable_cache_pecl.Persist.Copy.{
  Copy, get_already_allocated, add_already_allocated, alloc, get_or_copy_zstr, copy_zval,
  copy_elems, copy_buckets, copy_cstr, start_slots, empty_table, as_string,
}

module _ {R : Type 0} (php : Php R) (serializer : Option R) (contains : ℕ → Bool) where
  -- What follows when it is asked whether a value is decided early.
  abbrev pub after_string : ZendString → Option Bool × Calc → Bool × Calc
  after_string s q = elim q.0 [
    | some ok ↦ (ok, q.1)
    | none ↦ (true, add_size php (php.str_size (length s.val)) q.1)
  ]

  abbrev pub after_packed : Head → Elems → Option Bool × Calc → Bool × Calc
  after_packed head zs q = elim q.0 [
    | some ok ↦ (ok, q.1)
    | none ↦
        if num_elems zs == 0
        then (true, add_size php php.sizeof_table q.1)
        else calc_elems php serializer contains zs (
            add_size php (php.packed_used_size head (num_elems zs))
              (add_size php php.sizeof_table q.1))
  ]

  abbrev pub after_hashed : Head → Buckets → Option Bool × Calc → Bool × Calc
  after_hashed head bs q = elim q.0 [
    | some ok ↦ (ok, q.1)
    | none ↦
        if num_buckets bs == 0
        then (true, add_size php php.sizeof_table q.1)
        else calc_buckets php serializer contains bs
            (add_size php (php.used_size head (num_buckets bs)) (add_size php php.sizeof_table q.1))
  ]

  abbrev pub after_object : Option Bool × Calc → Bool × Calc
  after_object q = elim q.0 [ some ok ↦ (ok, q.1) | none ↦ ask_serialization q.1 ]

  abbrev pub after_resource : Option Bool × Calc → Bool × Calc
  after_resource q = elim q.0 [ some ok ↦ (ok, q.1) | none ↦ (false, q.1) ]

  key_early :
      (c : Calc) (s : ZendString)
      → c.use_serialization ≡ false
      → calc_str php serializer contains s c
        ≡ (after_string s (calc_early php serializer contains (string s) s.ptr c)).1
  unfolding calc_str calc_early
  key_early c s plain = elim (Bool-cases (contains s.ptr)) [
    | inl inside ↦ rw (plain, inside) refl
    | inr outside ↦ elim (Bool-cases (calc_memoize c s.ptr).0) [
      | inl seen ↦ simp (plain, outside, seen)
      | inr unseen ↦ simp (plain, outside, unseen)
    ]
  ]

  module _ (c : Calc) (q : Option Bool × Calc) where
    pub calc_key :
        (s : ZendString)
        → c.use_serialization ≡ false
        → calc_early php serializer contains (string s) s.ptr c ≡ q
        → calc_str php serializer contains s c ≡ (after_string s q).1
    calc_key s plain e = key_early c s plain ∙ ap (λ r. (after_string s r).1) e

    pub calc_string :
        (s : ZendString)
        → calc_early php serializer contains (string s) s.ptr c ≡ q
        → calc_zval php serializer contains (string s) c ≡ after_string s q
    unfolding calc_zval
    calc_string s e = ap (after_string s) e

    pub calc_packed :
        (ptr : ℕ) (head : Head) (zs : Elems)
        → calc_early php serializer contains (packed ptr head zs) ptr c ≡ q
        → calc_zval php serializer contains (packed ptr head zs) c ≡ after_packed head zs q
    unfolding calc_zval
    calc_packed ptr head zs e = ap (after_packed head zs) e

    pub calc_hashed :
        (ptr : ℕ) (head : Head) (bs : Buckets)
        → calc_early php serializer contains (hashed ptr head bs) ptr c ≡ q
        → calc_zval php serializer contains (hashed ptr head bs) c ≡ after_hashed head bs q
    unfolding calc_zval
    calc_hashed ptr head bs e = ap (after_hashed head bs) e

    pub calc_object :
        (ptr : ℕ)
        → calc_early php serializer contains (object ptr) ptr c ≡ q
        → calc_zval php serializer contains (object ptr) c ≡ after_object q
    unfolding calc_zval
    calc_object ptr e = ap after_object e

    pub calc_reference :
        (ptr : ℕ)
        → calc_early php serializer contains (reference ptr) ptr c ≡ q
        → calc_zval php serializer contains (reference ptr) c ≡ after_object q
    unfolding calc_zval
    calc_reference ptr e = ap after_object e

    pub calc_resource :
        (ptr : ℕ)
        → calc_early php serializer contains (resource ptr) ptr c ≡ q
        → calc_zval php serializer contains (resource ptr) c ≡ after_resource q
    unfolding calc_zval
    calc_resource ptr e = ap after_resource e

module _ {R : Type 0} (php : Php R) (contains : ℕ → Bool) (c : Copy) (made : Option Zval) where
  pub copy_zstr :
      (s : ZendString)
      → get_already_allocated contains c s.ptr (string s) ≡ made
      → get_or_copy_zstr php contains s c ≡ (elim made [
        | some z ↦ (as_string z, c)
        | none ↦ (
          (copy_cstr php s.val s.h c).0,
          add_already_allocated s.ptr
              (string (copy_cstr php s.val s.h c).0)
              (copy_cstr php s.val s.h c).1,
        )
      ])
  unfolding get_or_copy_zstr
  copy_zstr s e = rw (← e) refl

  pub copy_string :
      (s : ZendString)
      → get_already_allocated contains c s.ptr (string s) ≡ made
      → copy_zval php contains (string s) c ≡ (elim made [
        | some z ↦ (z, c)
        | none ↦
            (string (get_or_copy_zstr php contains s c).0, (get_or_copy_zstr php contains s c).1)
      ])
  unfolding copy_zval
  copy_string s e = rw (← e) refl

  -- the table of the array has been allocated, and its slots
  module _ (ptr : ℕ) (head : Head) where
    abbrev pub table : Zval → Copy
    table shallow = add_already_allocated ptr shallow (alloc php php.sizeof_table c)

    abbrev pub elems_of : Elems → Elems × Head × Copy
    elems_of zs =
        copy_elems php contains zs 0 (start_slots php head) (
          alloc php (php.packed_used_size head (num_elems zs)) (table (packed c.alloc_cur head zs)))

    abbrev pub buckets_of : Buckets → Buckets × Head × Copy
    buckets_of bs =
        copy_buckets php contains bs 0 (start_slots php head)
          (alloc php (php.used_size head (num_buckets bs)) (table (hashed c.alloc_cur head bs)))

    pub copy_packed :
        (zs : Elems)
        → get_already_allocated contains c ptr (packed ptr head zs) ≡ made
        → copy_zval php contains (packed ptr head zs) c ≡ (elim made [
          | some z ↦ (z, c)
          | none ↦
              if num_elems zs == 0
              then (
                empty_table php c.alloc_cur head,
                add_already_allocated ptr
                    (empty_table php c.alloc_cur head)
                    (table (packed c.alloc_cur head zs)),
              )
              else (
                packed c.alloc_cur (elems_of zs).1 (elems_of zs).0,
                add_already_allocated ptr
                    (packed c.alloc_cur (elems_of zs).1 (elems_of zs).0)
                    (elems_of zs).2,
              )
        ])
    unfolding copy_zval
    copy_packed zs e = rw (← e) refl

    pub copy_hashed :
        (bs : Buckets)
        → get_already_allocated contains c ptr (hashed ptr head bs) ≡ made
        → copy_zval php contains (hashed ptr head bs) c ≡ (elim made [
          | some z ↦ (z, c)
          | none ↦
              if num_buckets bs == 0
              then (
                empty_table php c.alloc_cur head,
                add_already_allocated ptr
                    (empty_table php c.alloc_cur head)
                    (table (hashed c.alloc_cur head bs)),
              )
              else (
                hashed c.alloc_cur (buckets_of bs).1 (buckets_of bs).0,
                add_already_allocated ptr
                    (hashed c.alloc_cur (buckets_of bs).1 (buckets_of bs).0)
                    (buckets_of bs).2,
              )
        ])
    unfolding copy_zval
    copy_hashed bs e = rw (← e) refl
