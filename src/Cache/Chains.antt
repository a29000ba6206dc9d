-- ===== src/Cache/Chains.antt =====
-- The loops over one chain: what a lookup finds after an insertion at the end, and after a hit.
use mathlib.Core.Option.{or_else}
use immutable_cache_pecl.Prelude.{
  ℕ, ◌≡◌, refl, true, List, [], ◌∷◌, Option, none, some, arith, length, memcmp_refl, eq_of_memcmp,
  if◌then◌else◌, Bool-cases, Option-cases, inl, inr,
}
use immutable_cache_pecl.Cache.Entry.{ZendString, Entry, key_equals}
use immutable_cache_pecl.Cache.Slots.{find_in, link, touch_in}

-- What never changes in an entry: all but the number of hits and the time of the last one.
pub record Frozen (W : Type 0) : Type 0 where
  pub addr : ℕ
  pub key : ZendString
  pub val : W
  pub ctime : ℕ
  pub mem_size : ℕ

module _ {W : Type 0} where
  abbrev pub frozen : Entry W → Frozen W
  frozen e = record {
    addr = e.addr;
    key = e.key;
    val = e.val;
    ctime = e.ctime;
    mem_size = e.mem_size;
  }

  abbrev pub frozen? : Option (Entry W) → Option (Frozen W)
  frozen? none = none
  frozen? (some e) = some (frozen e)

  pub eq_none_of_frozen? : (o : Option (Entry W)) → frozen? o ≡ none → o ≡ none
  eq_none_of_frozen? none p = refl
  eq_none_of_frozen? (some e) p = cc

  pub key_equals-eq :
      (e : Entry W) (key : List ℕ) (h : ℕ)
      → key_equals e key h ≡ true
      → (e.key.h ≡ h) × (e.key.val ≡ key)
  unfolding key_equals
  key_equals-eq e key h t = (ground arith, ground (arith, eq_of_memcmp e.key.val key))

  pub key_equals_self :
      (e : Entry W) (key : List ℕ) (h : ℕ)
      → e.key.h ≡ h
      → e.key.val ≡ key
      → key_equals e key h ≡ true
  unfolding key_equals
  key_equals_self e key h p q = rw q (ground (arith, memcmp_refl key (length key)))

  -- two entries match one another or neither does
  pub key_equals_symm :
      (a b : Entry W) → key_equals a b.key.val b.key.h ≡ key_equals b a.key.val a.key.h
  key_equals_symm a b = ground (
    arith,
    key_equals-eq a b.key.val b.key.h,
    key_equals-eq b a.key.val a.key.h,
    key_equals_self a b.key.val b.key.h,
    key_equals_self b a.key.val a.key.h,
  )

  pub link-none :
      (es : List (Entry W)) (new : Entry W) (key : List ℕ) (h : ℕ)
      → link es new key h ≡ none
      → (e : Entry W) × (find_in es key h ≡ some e)
  unfolding link find_in
  link-none [] new key h p = absurd (ground arith)
  link-none (e ∷ es) new key h p = elim (Bool-cases (key_equals e key h)) [
    | inl hit ↦ (e, rw hit)
    | inr miss ↦ let (x, found) = link-none es new key h (ground arith) in (x, rw (miss, found))
  ]

  pub link-some :
      (es : List (Entry W)) (new : Entry W) (key : List ℕ) (h : ℕ)
      → find_in es key h ≡ none
      → (es' : List (Entry W)) × (link es new key h ≡ some es')
  unfolding link find_in
  link-some [] new key h p = (new ∷ [], refl)
  link-some (e ∷ es) new key h p =
      let (es', linked) = link-some es new key h (ground arith) in (e ∷ es', ground arith)

  pub find_in-link :
      (es es' : List (Entry W)) (new : Entry W) (key : List ℕ) (h : ℕ) (q : List ℕ) (hq : ℕ)
      → link es new key h ≡ some es'
      → find_in es' q hq
        ≡ or_else (find_in es q hq) (if key_equals new q hq then some new else none)
  unfolding link find_in or_else
  find_in-link [] es' new key h q hq p = ground arith
  find_in-link (e ∷ es) es' new key h q hq p = elim (Option-cases (link es new key h)) [
    | inl stop ↦ absurd (ground arith)
    | inr (rest, more) ↦ ground (arith, find_in-link es rest new key h q hq)
  ]

  -- an insertion happens only where the lookup finds nothing
  pub find_in_of_link :
      (es es' : List (Entry W)) (new : Entry W) (key : List ℕ) (h : ℕ)
      → link es new key h ≡ some es'
      → find_in es key h ≡ none
  unfolding link find_in
  find_in_of_link [] es' new key h p = refl
  find_in_of_link (e ∷ es) es' new key h p = elim (Option-cases (link es new key h)) [
    | inl stop ↦ absurd (ground arith)
    | inr (rest, more) ↦ ground (arith, find_in_of_link es rest new key h)
  ]

  -- a hit changes no frozen part, of the entry that is hit or of any other
  pub find_in-touch_in :
      (es : List (Entry W)) (key : List ℕ) (h t : ℕ) (q : List ℕ) (hq : ℕ)
      → frozen? (find_in (touch_in es key h t) q hq) ≡ frozen? (find_in es q hq)
  unfolding touch_in find_in key_equals
  find_in-touch_in [] key h t q hq = refl
  find_in-touch_in (e ∷ es) key h t q hq = elim (Bool-cases (key_equals e key h)) [
    | inl hit ↦ rw hit (ground arith)
    | inr miss ↦ rw miss (ground (arith, find_in-touch_in es key h t q hq))
  ]
