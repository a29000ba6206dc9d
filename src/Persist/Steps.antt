-- ===== src/Persist/Steps.antt =====
-- The calculation and the copy of a value, step by step.
use immutable_cache_pecl.Prelude.{
  ℕ, ◌≡◌, refl, ap, sym, ◌∙◌, Bool, true, false, Option, none, some, length,
}
use immutable_cache_pecl.Cache.Entry.{ZendString}
use immutable_cache_pecl.Persist.Value.{
  Head, Zval, is_undef, undef, scalar, string, packed, hashed, object, resource, reference,
}
use immutable_cache_pecl.Persist.Calc.{Php, Calc, calc_str, calc_early, calc_zval}
use immutable_cache_pecl.Persist.Equations.{calc_key, calc_string, copy_zstr, copy_string}
use immutable_cache_pecl.Persist.Copy.{Copy, get_or_copy_zstr, copy_zval, copy_cstr}
use immutable_cache_pecl.Persist.Tables.{not_both}
use immutable_cache_pecl.Persist.Agreement.{Agrees, Goes, early, noted, fresh-Goes, met, fresh}

module _ {R : Type 0} (php : Php R) (serializer : Option R) (contains : ℕ → Bool) (base : ℕ) where
  module _ (c : Calc) (d : Copy) (a : Agrees php serializer contains base c d) where
    -- a string as a key, and a string as a value
    pub str-Goes :
        (s : ZendString)
        → Goes php serializer contains base c
            (calc_str php serializer contains s c)
            (get_or_copy_zstr php contains s d).1
    unfolding copy_cstr
    str-Goes s = elim (early php serializer contains base (string s) s.ptr c d a) [
      | met x e f ↦
          rw (calc_key php serializer contains c _ s a.plain e, copy_zstr php contains d _ s f)
            (a, λ k t. t)
      | fresh e f ↦
          rw (calc_key php serializer contains c _ s a.plain e, copy_zstr php contains d _ s f)
            (fresh-Goes php serializer contains base (php.str_size (length s.val)) s.ptr _ c d a)
    ]

    pub string-Goes :
        (s : ZendString)
        → Goes php serializer contains base c
            (calc_zval php serializer contains (string s) c).1
            (copy_zval php contains (string s) d).1
    unfolding copy_cstr
    string-Goes s = elim (early php serializer contains base (string s) s.ptr c d a) [
      | met x e f ↦
          rw (calc_string php serializer contains c _ s e, copy_string php contains d _ s f)
            (a, λ k t. t)
      | fresh e f ↦
          rw
            (
              calc_string php serializer contains c _ s e,
              copy_string php contains d _ s f,
              copy_zstr php contains d _ s f,
            )
            (fresh-Goes php serializer contains base (php.str_size (length s.val)) s.ptr _ c d a)
    ]

    -- objects, resources and references are only met, never copied
    pub foreign-Goes :
        (z : Zval) (ptr : ℕ)
        → (q : Option Bool × Calc → Bool × Calc) → (copy_zval php contains z d).1 ≡ d
        → calc_zval php serializer contains z c ≡ q (calc_early php serializer contains z ptr c)
        → (q (none, noted php serializer contains base ptr c)).0 ≡ false
        → (q (some true, c)).1 ≡ c
        → (calc_zval php serializer contains z c).0 ≡ true
        → Goes php serializer contains base c
            (calc_zval php serializer contains z c).1
            (copy_zval php contains z d).1
    foreign-Goes z ptr q same calc_is refused kept ok =
        elim (early php serializer contains base z ptr c d a) [
          | met x e f ↦ rw (same, calc_is, e, kept) (a, λ k t. t)
          | fresh e f ↦ absurd (not_both (sym ok ∙ ap (λ r. r.0) (calc_is ∙ ap q e) ∙ refused))
        ]

    -- the rest of the slots, behind a value
    pub then-Goes :
        (q : Bool × Calc) (rest : Calc → Bool × Calc) (d₁ d' : Copy)
        → (elim q.0 as (λ _. Bool × Calc) [ true ↦ rest q.1 | false ↦ (false, q.1) ]).0 ≡ true
        → (q.0 ≡ true → Goes php serializer contains base c q.1 d₁)
        → (Agrees php serializer contains base q.1 d₁
            → (rest q.1).0 ≡ true
            → Goes php serializer contains base q.1 (rest q.1).1 d')
        → Goes php serializer contains base c
            (elim q.0 as (λ _. Bool × Calc) [ true ↦ rest q.1 | false ↦ (false, q.1) ]).1
            d'
    then-Goes (true, c₁) rest d₁ d' ok first more =
        let (a₁, keeps) = first refl in
        let (a₂, keeps') = more a₁ ok in (a₂, λ k s. keeps' k (keeps k s))
    then-Goes (false, c₁) rest d₁ d' ok first more = absurd (not_both (sym ok))

    pub undef-Goes :
        (z : Zval)
        → is_undef z ≡ true
        → Goes php serializer contains base c (calc_zval php serializer contains z c).1 d
    unfolding calc_zval
    undef-Goes undef u = (a, λ k t. t)
    undef-Goes (scalar _) u = absurd (not_both (sym u))
    undef-Goes (string _) u = absurd (not_both (sym u))
    undef-Goes (packed _ _ _) u = absurd (not_both (sym u))
    undef-Goes (hashed _ _ _) u = absurd (not_both (sym u))
    undef-Goes (object _) u = absurd (not_both (sym u))
    undef-Goes (resource _) u = absurd (not_both (sym u))
    undef-Goes (reference _) u = absurd (not_both (sym u))

    -- a slot in use, or not
    pub pick-Goes :
        {T : Type 0}
        → (b : Bool) (c' : Calc) (x y : T × Head × Copy)
        → (b ≡ true → Goes php serializer contains base c c' x.2)
        → (b ≡ false → Goes php serializer contains base c c' y.2)
        → Goes php serializer contains base c c'
            (elim b as (λ _. T × Head × Copy) [ true ↦ x | false ↦ y ]).2
    pick-Goes true c' x y f g = f refl
    pick-Goes false c' x y f g = g refl

    pub picks-Goes :
        {T : Type 0}
        → (b : Bool) (p q : Bool × Calc) (x y : T × Head × Copy)
        → (elim b as (λ _. Bool × Calc) [ true ↦ p | false ↦ q ]).0 ≡ true
        → (p.0 ≡ true → Goes php serializer contains base c p.1 x.2)
        → (q.0 ≡ true → Goes php serializer contains base c q.1 y.2)
        → Goes php serializer contains base c
            (elim b as (λ _. Bool × Calc) [ true ↦ p | false ↦ q ]).1
            (elim b as (λ _. T × Head × Copy) [ true ↦ x | false ↦ y ]).2
    picks-Goes true p q x y ok f g = f ok
    picks-Goes false p q x y ok f g = g ok
