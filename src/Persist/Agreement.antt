-- ===== src/Persist/Agreement.antt =====
-- The calculation and the copy at the same point.
use immutable_cache_pecl.Prelude.{
  ℕ, ◌+◌, ◌%◌, ◌^◌, ◌≡◌, Bool, true, false, Option, none, some, arith, Bool-cases, inl, inr,
}
use immutable_cache_pecl.Persist.Value.{Zval}
use immutable_cache_pecl.Persist.Memo.{pointer_to_hash_key}
use immutable_cache_pecl.Persist.Calc.{Php, Calc, add_size, calc_memoize, calc_early}
use immutable_cache_pecl.Persist.Copy.{Copy, get_already_allocated, add_already_allocated, alloc}
use immutable_cache_pecl.Persist.Tables.{
  Same, seen, note, Same-note, Same-make, seen-note, known, untold, told, missing,
}

module _ {R : Type 0} (php : Php R) (serializer : Option R) (contains : ℕ → Bool) (base : ℕ) where
  -- the calculation and the copy at the same point
  pub record Agrees (c : Calc) (d : Copy) : Type 0 where
    pub reach : d.alloc_cur % 2 ^ 64 ≡ (base + c.size) % 2 ^ 64
    pub same : Same c.already_counted d.already_allocated
    pub plain : c.use_serialization ≡ false

  -- they agree, and the calculation has not forgotten anything
  abbrev pub Goes : Calc → Calc → Copy → Type 0
  Goes c c' d' =
      Agrees c' d' × ((k : ℕ) → seen k c.already_counted ≡ true → seen k c'.already_counted ≡ true)

  pub data Early (z : Zval) (ptr : ℕ) (c : Calc) (d : Copy) : Type 0 where
    met :
        (x : Zval)
        → calc_early php serializer contains z ptr c ≡ (some true, c)
        → get_already_allocated contains d ptr z ≡ some x
        → Early z ptr c d
    fresh :
        calc_early php serializer contains z ptr c
          ≡ (none, record c { already_counted = note (pointer_to_hash_key ptr) c.already_counted })
        → get_already_allocated contains d ptr z ≡ none
        → Early z ptr c d

  early_out :
      (z : Zval) (ptr : ℕ) (c : Calc) (d : Copy)
      → Agrees c d
      → contains ptr ≡ false
      → Early z ptr c d
  unfolding calc_early get_already_allocated calc_memoize
  early_out z ptr c d a outside =
      elim (known (pointer_to_hash_key ptr) c.already_counted d.already_allocated a.same) [
        | untold is is' ↦ fresh (rw (a.plain, outside, is)) (rw (outside, is'))
        | told xs ys x is is' there it ↦
            met x (rw (a.plain, outside, is, there)) (rw (outside, is', it))
        | missing xs ys is is' off it ↦
            fresh (rw (a.plain, outside, is, off)) (rw (outside, is', it))
      ]

  pub early : (z : Zval) (ptr : ℕ) (c : Calc) (d : Copy) → Agrees c d → Early z ptr c d
  unfolding calc_early get_already_allocated calc_memoize
  early z ptr c d a = elim (Bool-cases (contains ptr)) [
    | inl inside ↦ met z (rw (a.plain, inside)) (rw inside)
    | inr outside ↦ early_out z ptr c d a outside
  ]

  pub grow : (n : ℕ) (c : Calc) (d : Copy) → Agrees c d → Agrees (add_size php n c) (alloc php n d)
  grow n c d a = record { reach = omega (arith, a.reach); same = a.same; plain = a.plain }

  abbrev pub noted : ℕ → Calc → Calc
  noted ptr c = record c { already_counted = note (pointer_to_hash_key ptr) c.already_counted }

  -- what was not met is counted and copied
  pub fresh-Goes :
      (n ptr : ℕ) (z : Zval) (c : Calc) (d : Copy)
      → Agrees c d
      → Goes c (add_size php n (noted ptr c)) (add_already_allocated ptr z (alloc php n d))
  unfolding add_already_allocated
  fresh-Goes n ptr z c d a =
      let k = pointer_to_hash_key ptr in
      (
        record {
          reach = omega (arith, a.reach);
          same = Same-note k z c.already_counted d.already_allocated a.same;
          plain = a.plain;
        },
        λ j s. seen-note j k c.already_counted s,
      )

  -- an array that was met, once more
  pub again :
      (ptr : ℕ) (z : Zval) (c : Calc) (d : Copy)
      → Agrees c d
      → seen (pointer_to_hash_key ptr) c.already_counted ≡ true
      → Agrees c (add_already_allocated ptr z d)
  unfolding add_already_allocated
  again ptr z c d a there = record {
    reach = a.reach;
    same = Same-make (pointer_to_hash_key ptr) z c.already_counted d.already_allocated a.same there;
    plain = a.plain;
  }
