-- ===== src/Persist/CopiedSlots.antt =====
-- One slot of an array in a copy.
use immutable_cache_pecl.Prelude.{
  ℕ, ◌≡◌, refl, ap, sym, ◌∙◌, Bool, true, false, List, ◌==◌, if◌then◌else◌,
}
use immutable_cache_pecl.Persist.Value.{
  Head, Zval, is_undef, undef, scalar, string, packed, hashed, object, resource, reference, Plain,
  nothing, Items, text_key, plain, at_text,
}
use immutable_cache_pecl.Persist.Calc.{Php}
use immutable_cache_pecl.Persist.Copy.{Copy, point_to, used_index, at_least}

-- whether a slot is in use shows
abbrev is_nothing : Plain → Bool
is_nothing nothing = true
is_nothing _ = false

is_undef-plain : (z : Zval) → is_undef z ≡ is_nothing (plain z)
unfolding plain
is_undef-plain undef = refl
is_undef-plain (scalar n) = refl
is_undef-plain (string s) = refl
is_undef-plain (packed ptr head zs) = refl
is_undef-plain (hashed ptr head bs) = refl
is_undef-plain (object ptr) = refl
is_undef-plain (resource ptr) = refl
is_undef-plain (reference ptr) = refl

same_undef : (y z : Zval) → plain y ≡ plain z → is_undef y ≡ is_undef z
same_undef y z e = is_undef-plain y ∙ ap is_nothing e ∙ sym (is_undef-plain z)

pub slot_eq :
    (f : Plain → Items → Items) (y z : Zval) (r s : Items)
    → plain y ≡ plain z
    → r ≡ s
    → (if is_undef y then r else f (plain y) r) ≡ (if is_undef z then s else f (plain z) s)
slot_eq f y z r s e e' = rw (same_undef y z e, e, e') refl

pub keyed_eq :
    (a b : List ℕ) (y z : Zval) (r s : Items)
    → a ≡ b
    → plain y ≡ plain z
    → r ≡ s
    → at_text a y (plain y) r ≡ at_text b z (plain z) s
keyed_eq a b y z r s e e' e'' =
    ap (λ val. at_text val y (plain y) r) e ∙ slot_eq (text_key b) y z r s e' e''

pub pick-Slots :
    {T : Type 0}
    → (P : T × Head × Copy → Type 0) (b : Bool) (x y : T × Head × Copy) → (b ≡ true → P x)
    → (b ≡ false → P y)
    → P (elim b as (λ _. T × Head × Copy) [ true ↦ x | false ↦ y ])
pick-Slots P true x y f g = f refl
pick-Slots P false x y f g = g refl

if-num_elements :
    (b : Bool) (x y : Head)
    → x.num_elements ≡ y.num_elements
    → (if◌then◌else◌ {A = Head} b x y).num_elements ≡ y.num_elements
if-num_elements true x y e = e
if-num_elements false x y e = refl

pub num_elements-point_to :
    {R : Type 0} (php : Php R) (idx : ℕ) (head : Head)
    → (point_to php idx head).num_elements ≡ head.num_elements
num_elements-point_to php idx head =
    if-num_elements (head.internal_pointer == php.invalid_idx) _ head refl

pub num_elements-used_index :
    {R : Type 0} (php : Php R) (h next idx : ℕ) (head : Head)
    → (used_index php h next (point_to php idx head)).num_elements ≡ head.num_elements
num_elements-used_index php h next idx head =
    if-num_elements (at_least php h (point_to php idx head).next_free) _ (point_to php idx head)
      refl
    ∙ num_elements-point_to php idx head
