-- ===== src/Cache/Slots.antt =====
-- immutable_cache_cache.c: the hash table under its locks.
use immutable_cache_pecl.Prelude.{
  ℕ, ◌+◌, ◌%◌, ◌^◌, Bool, true, false, List, [], ◌∷◌, Option, none, some, get_or, set,
  if◌then◌else◌,
}
use immutable_cache_pecl.Cache.Entry.{Entry, key_equals}
use immutable_cache_pecl.Cache.State.{Cache, Shm}

-- The counters are 64 bits wide.
abbrev pub add64 : ℕ → ℕ → ℕ
add64 a b = (a + b) % 2 ^ 64

module _ {W : Type 0} where
  -- the `while (*entry)` loops: the first entry with this key
  unfoldable pub find_in : List (Entry W) → List ℕ → ℕ → Option (Entry W)
  unfolding key_equals
  find_in [] key h = none
  find_in (e ∷ es) key h = if key_equals e key h then some e else find_in es key h

  -- the loop of the insertion: it stops at an equal key, and writes behind the last entry
  unfoldable pub link : List (Entry W) → Entry W → List ℕ → ℕ → Option (List (Entry W))
  unfolding key_equals
  link [] new key h = some (new ∷ [])
  link (e ∷ es) new key h =
      if key_equals e key h
      then none
      else elim (link es new key h) [ none ↦ none | some rest ↦ some (e ∷ rest) ]

  -- the loop of `immutable_cache_cache_rlocked_find`, with the writes to the entry that it finds
  unfoldable pub touch_in : List (Entry W) → List ℕ → ℕ → ℕ → List (Entry W)
  unfolding key_equals
  touch_in [] key h t = []
  touch_in (e ∷ es) key h t =
      if key_equals e key h
      then record e { nhits = add64 e.nhits 1; atime = t } ∷ es
      else e ∷ touch_in es key h t

module _ {V R W S : Type 0} (shm : Shm V R W S) where
  -- `immutable_cache_cache_hash_slot`
  unfoldable pub hash_slot : Cache R W S → List ℕ → ℕ × ℕ
  hash_slot c key = let h = shm.hash key in (h, h % c.nslots)

  abbrev pub chain_of : Cache R W S → List ℕ → List (Entry W)
  unfolding hash_slot
  chain_of c key = get_or c.slots (hash_slot c key).1 []

  -- `immutable_cache_cache_wlocked_insert_exclusive`
  unfoldable pub wlocked_insert_exclusive : Cache R W S → Entry W → Bool × Cache R W S
  unfolding link hash_slot
  wlocked_insert_exclusive c new =
      let (h, s) = hash_slot c new.key.val in
      elim (link (get_or c.slots s []) new new.key.val h) [
        | none ↦ (false, c)
        | some chain ↦ (
          true,
          record c {
            header = record (c.header) {
              mem_size = add64 c.header.mem_size new.mem_size;
              nentries = add64 c.header.nentries 1;
              ninserts = add64 c.header.ninserts 1;
            };
            slots = set c.slots s chain;
          },
        )
      ]

  -- `immutable_cache_cache_rlocked_find_nostat`
  unfoldable pub rlocked_find_nostat : Cache R W S → List ℕ → Option (Entry W)
  unfolding find_in hash_slot
  rlocked_find_nostat c key = let (h, s) = hash_slot c key in find_in (get_or c.slots s []) key h

  -- `immutable_cache_cache_rlocked_find`: the entry as it stands after the writes. Nothing is
  -- written while memory is protected.
  unfoldable pub rlocked_find : Bool → Cache R W S → List ℕ → ℕ → Option (Entry W) × Cache R W S
  unfolding find_in touch_in hash_slot
  rlocked_find protected c key t =
      let (h, s) = hash_slot c key in
      let chain = get_or c.slots s [] in
      elim (find_in chain key h) [
        | none ↦ if protected then (none, c) else (
          none,
          record c { header = record (c.header) { nmisses = add64 c.header.nmisses 1 } },
        )
        | some e ↦ if protected then (some e, c) else (
          some (record e { nhits = add64 e.nhits 1; atime = t }),
          record c {
            header = record (c.header) { nhits = add64 c.header.nhits 1 };
            slots = set c.slots s (touch_in chain key h t);
          },
        )
      ]
