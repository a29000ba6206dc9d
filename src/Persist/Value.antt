-- ===== src/Persist/Value.antt =====
-- PHP values (`zval`) as trees whose strings and arrays carry their addresses, for PHP from 8.2 on.
-- Reference counts and type flags are left out.
use immutable_cache_pecl.Prelude.{Bool, true, false, if◌then◌else◌, ℕ, suc, ◌+◌, List}
use immutable_cache_pecl.Cache.Entry.{ZendString}

-- The fields of a `HashTable`. The number of slots, `nNumUsed`, is the length of the slots.
pub record Head : Type 0 where
  pub table_mask : ℕ
  pub num_elements : ℕ
  pub next_free : ℕ
  pub internal_pointer : ℕ

mutual
  -- `scalar` stands for the types below `IS_STRING` but `IS_UNDEF`.
  pub data Zval : Type 0 where
    undef : Zval
    scalar : ℕ → Zval
    string : ZendString → Zval
    packed : (ptr : ℕ) → Head → Elems → Zval
    hashed : (ptr : ℕ) → Head → Buckets → Zval
    object resource reference : (ptr : ℕ) → Zval

  -- the slots of a packed array
  pub data Elems : Type 0 where
    no_elem : Elems
    elem : Zval → Elems → Elems

  -- The slots of a hash. An `indirect` one points elsewhere, as those of `$GLOBALS` do.
  pub data Buckets : Type 0 where
    no_bucket : Buckets
    keyed : ZendString → Zval → Buckets → Buckets
    indexed : ℕ → Zval → Buckets → Buckets
    indirect : Buckets → Buckets

abbrev pub is_undef : Zval → Bool
is_undef undef = true
is_undef _ = false

-- a type from `IS_STRING` on
abbrev pub is_counted : Zval → Bool
is_counted undef = false
is_counted (scalar _) = false
is_counted _ = true

abbrev pub num_elems : Elems → ℕ
num_elems no_elem = 0
num_elems (elem z zs) = suc (num_elems zs)

abbrev pub num_buckets : Buckets → ℕ
num_buckets no_bucket = 0
num_buckets (keyed k z bs) = suc (num_buckets bs)
num_buckets (indexed h z bs) = suc (num_buckets bs)
num_buckets (indirect bs) = suc (num_buckets bs)

-- What a PHP program sees of a value: no addresses, and arrays as their entries in order.
mutual
  pub data Plain : Type 0 where
    nothing : Plain
    number : ℕ → Plain
    text : List ℕ → Plain
    entries : Items → Plain
    foreign : ℕ → Plain

  pub data Items : Type 0 where
    no_item : Items
    text_key : List ℕ → Plain → Items → Items
    int_key : ℕ → Plain → Items → Items

-- the entry of a slot, if the slot is in use
abbrev pub at_index : ℕ → Zval → Plain → Items → Items
at_index i z p rest = if is_undef z then rest else int_key i p rest

abbrev pub at_text : List ℕ → Zval → Plain → Items → Items
at_text key z p rest = if is_undef z then rest else text_key key p rest

unfoldable mutual
  pub plain : Zval → Plain
  plain undef = nothing
  plain (scalar n) = number n
  plain (string s) = text s.val
  plain (packed ptr head zs) = entries (plain_elems zs 0)
  plain (hashed ptr head bs) = entries (plain_buckets bs)
  plain (object ptr) = foreign ptr
  plain (resource ptr) = foreign ptr
  plain (reference ptr) = foreign ptr

  pub plain_elems : Elems → ℕ → Items
  plain_elems no_elem i = no_item
  plain_elems (elem z zs) i = at_index i z (plain z) (plain_elems zs (i + 1))

  pub plain_buckets : Buckets → Items
  plain_buckets no_bucket = no_item
  plain_buckets (keyed k z bs) = at_text k.val z (plain z) (plain_buckets bs)
  plain_buckets (indexed h z bs) = at_index h z (plain z) (plain_buckets bs)
  plain_buckets (indirect bs) = plain_buckets bs
