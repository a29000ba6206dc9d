-- ===== src/Iterator.antt =====
-- immutable_cache_iterator.c: an object that goes over the entries of the cache chunk by chunk. The
-- stack of an iterator is the list of the items that were pushed since it was emptied, the first one
-- at the front; `item_at` reads them as the stack of Stack does. An `int` is its 32 bits, and wraps
-- around where C leaves an overflow undefined. A stack is emptied as one of fewer than 2^31 items is.
use immutable_cache_pecl.Prelude.{
  ℕ, zero, suc, ◌+◌, ◌-◌, ◌/◌, ◌%◌, ◌^◌, Bool, true, false, not, List, [], ◌∷◌, ◌++◌, map, Option,
  none, some, length, ltb, leb, same, ◌==◌, if◌then◌else◌,
}
use immutable_cache_pecl.Cache.Entry.{ZendString, Entry}
use immutable_cache_pecl.Cache.Locks.{Grant, Process, rlock_global, runlock_global}
use immutable_cache_pecl.Cache.State.{Cache, Shm}
use immutable_cache_pecl.Sma.Words.{add64}
use immutable_cache_pecl.Stack.{create, pushes, get}
pub mod Objects
pub mod Scan
pub mod Ready
pub mod Loop
pub mod Totals
mod Examples

-- An element of the array that the iterator returns for an entry.
pub data Field (V : Type 0) : Type 0 where
  user_type : Field V
  entry_key : ZendString → Field V
  entry_value : Option V → Field V
  num_hits creation_time access_time mem_size : ℕ → Field V

pub record Item (V : Type 0) : Type 0 where
  pub key : ZendString
  pub value : List (Field V)

-- A compiled regular expression is the test of a key that it stands for. `size_hint` is what the stack
-- was created with.
pub record Iterator (V : Type 0) : Type 0 where
  pub initialized : Bool
  pub format : ℕ
  pub slot_idx : ℕ
  pub chunk_size : ℕ
  pub size_hint : ℕ
  pub stack : List (Item V)
  pub stack_idx : ℕ
  pub regex : Option (List ℕ → Bool)
  pub search_hash : Option (List (List ℕ))
  pub key_idx : ℕ
  pub totals_flag : Bool
  pub hits : ℕ
  pub size : ℕ
  pub count : ℕ

-- the argument `search` of the constructor, the strings of it if it is an array
pub data Search : Type 0 where
  missing other : Search
  text : List ℕ → Search
  key_list : List (List ℕ) → Search

-- `format & (1 << bit)`
abbrev pub has : ℕ → ℕ → Bool
has format bit = format / 2 ^ bit % 2 == 1

abbrev pub field_if : {V : Type 0} → Bool → Field V → List (Field V) → List (Field V)
field_if on f fs = if on then f ∷ fs else fs

-- `zend_hash_exists`
abbrev pub hash_exists : List (List ℕ) → List ℕ → Bool
hash_exists [] key = false
hash_exists (k ∷ ks) key = if same k key then true else hash_exists ks key

abbrev pub drop : {A : Type 0} → ℕ → List A → List A
drop zero xs = xs
drop (suc n) [] = []
drop (suc n) (x ∷ xs) = drop n xs

-- `immutable_cache_stack_size`, an `int`
abbrev pub stack_size : {V : Type 0} → Iterator V → ℕ
stack_size iterator = length iterator.stack % 2 ^ 32

-- an `int` as a `size_t`: a negative number becomes a large one
abbrev pub to_size : ℕ → ℕ
to_size n = if ltb n (2 ^ 31) then n else n + (2 ^ 64 - 2 ^ 32)

-- `immutable_cache_stack_get` of the stack that was created for `size_hint` items and got these; `none`
-- where its assertion fails, or for memory behind the array
unfoldable pub item_at : {A : Type 0} → (size_hint : ℕ) → List A → ℕ → Option A
item_at size_hint items n =
    elim (get none (pushes none (create none size_hint) (map some items)) n) [
      | none ↦ none
      | some item ↦ item
    ]

module _ {V R W S : Type 0} (shm : Shm V R W S) (grant : Grant) where
  unfoldable pub item_ctor : Cache R W S → Iterator V → Entry W → Item V
  item_ctor cache iterator entry =
      let f = iterator.format in
      record {
        key = entry.key;
        value = field_if (has f 0) user_type (
            field_if (has f 1) (entry_key entry.key) (
              field_if (has f 2) (entry_value (shm.unpersist entry.val cache.serializer)) (
                field_if (has f 3) (num_hits entry.nhits) (
                  field_if (has f 5) (creation_time entry.ctime) (
                    field_if (has f 7) (access_time entry.atime)
                      (field_if (has f 9) (mem_size entry.mem_size) []))))));
      }

  unfoldable pub search_match : Iterator V → Entry W → Bool
  search_match iterator entry =
      let rval : Bool = elim (iterator.regex) [
        | none ↦ true
        | some match_key ↦ match_key entry.key.val
      ] in
      elim (iterator.search_hash) [ none ↦ rval | some keys ↦ hash_exists keys entry.key.val ]

  -- the loop over one chain: the items that it pushes
  unfoldable pub chain_items : Cache R W S → Iterator V → List (Entry W) → List (Item V)
  unfolding item_ctor search_match
  chain_items cache iterator [] = []
  chain_items cache iterator (e ∷ es) =
      let items = chain_items cache iterator es in
      if search_match iterator e then item_ctor cache iterator e ∷ items else items

  -- the loop over the slots from `slot_idx` on: the items that it pushes, and how many slots it goes on
  unfoldable pub scan :
      Cache R W S → Iterator V → (count : ℕ) → List (List (Entry W)) → List (Item V) × ℕ
  unfolding chain_items
  scan cache iterator count [] = ([], 0)
  scan cache iterator count (c ∷ cs) =
      let items = chain_items cache iterator c in
      let (more, n) = scan cache iterator (count + length items) cs in
      if leb count iterator.chunk_size then (items ++ more, suc n) else ([], 0)

  -- `immutable_cache_iterator_fetch_active`: how many items it pushed
  unfoldable pub fetch_active : Cache R W S → Process → Iterator V → ℕ × Iterator V × Process
  unfolding scan rlock_global runlock_global
  fetch_active cache p iterator =
      let emptied = record iterator { stack = [] } in
      let (locked, p₁) = rlock_global grant p in
      let (items, n) = scan cache emptied 0 (drop iterator.slot_idx cache.slots) in
      if locked
      then (
        length items,
        record emptied { stack = items; slot_idx = iterator.slot_idx + n; stack_idx = 0 },
        runlock_global p₁,
      )
      else (0, emptied, p₁)

  -- the sums of `immutable_cache_iterator_totals` over one chain, and over the slots
  unfoldable pub chain_totals : Iterator V → List (Entry W) → Iterator V
  unfolding search_match
  chain_totals iterator [] = iterator
  chain_totals iterator (e ∷ es) =
      chain_totals
        (if search_match iterator e
          then record iterator {
            size = add64 iterator.size e.mem_size;
            hits = add64 iterator.hits e.nhits;
            count = add64 iterator.count 1;
          }
          else iterator)
        es

  unfoldable pub slot_totals : Iterator V → List (List (Entry W)) → Iterator V
  unfolding chain_totals
  slot_totals iterator [] = iterator
  slot_totals iterator (c ∷ cs) = slot_totals (chain_totals iterator c) cs

  unfoldable pub totals : Cache R W S → Process → Iterator V → Iterator V × Process
  unfolding slot_totals rlock_global runlock_global
  totals cache p iterator =
      let (locked, p₁) = rlock_global grant p in
      if locked
      then (record (slot_totals iterator cache.slots) { totals_flag = true }, runlock_global p₁)
      else (iterator, p₁)

  -- The methods return `none` where they throw. `none` of `current` and `key` also stands for an item
  -- out of the stack's bounds.
  unfoldable pub rewind : Cache R W S → Process → Iterator V → Option Bool × Iterator V × Process
  unfolding fetch_active
  rewind cache p iterator =
      if iterator.initialized
      then (let (n, it, p₁) =
            fetch_active cache p (record iterator { slot_idx = 0; stack_idx = 0; key_idx = 0 }) in
          (some true, it, p₁))
      else (none, iterator, p)

  -- what `valid`, `current` and `key` do first: fetch another chunk at the end of the stack
  unfoldable pub refill : Cache R W S → Process → Iterator V → Bool × Iterator V × Process
  unfolding fetch_active
  refill cache p iterator =
      if stack_size iterator == iterator.stack_idx
      then (let (n, it, p₁) = fetch_active cache p iterator in (ltb 0 n, it, p₁))
      else (true, iterator, p)

  unfoldable pub valid : Cache R W S → Process → Iterator V → Option Bool × Iterator V × Process
  unfolding refill
  valid cache p iterator =
      if iterator.initialized
      then (let (_, it, p₁) = refill cache p iterator in
          (some (if stack_size it == 0 then false else true), it, p₁))
      else (none, iterator, p)

  unfoldable pub current_item :
      Cache R W S → Process → Iterator V → Option (Item V) × Iterator V × Process
  unfolding refill item_at
  current_item cache p iterator =
      if iterator.initialized
      then (let (there, it, p₁) = refill cache p iterator in
          if there
          then (item_at it.size_hint it.stack (to_size it.stack_idx), it, p₁)
          else (none, it, p₁))
      else (none, iterator, p)

  unfoldable pub current :
      Cache R W S → Process → Iterator V → Option (List (Field V)) × Iterator V × Process
  unfolding current_item
  current cache p iterator =
      let (item, it, p₁) = current_item cache p iterator in
      (elim item [ none ↦ none | some i ↦ some i.value ], it, p₁)

  unfoldable pub key_of :
      Cache R W S → Process → Iterator V → Option ZendString × Iterator V × Process
  unfolding current_item
  key_of cache p iterator =
      let (item, it, p₁) = current_item cache p iterator in
      (elim item [ none ↦ none | some i ↦ some i.key ], it, p₁)

  -- `next`; the first component is false where it throws
  unfoldable pub next : Iterator V → Bool × Iterator V
  next iterator =
      if iterator.initialized
      then if stack_size iterator == 0 then (true, iterator) else (
        true,
        record iterator {
          stack_idx = suc iterator.stack_idx % 2 ^ 32;
          key_idx = suc iterator.key_idx;
        },
      )
      else (false, iterator)

  -- `getTotalHits`, `getTotalSize` and `getTotalCount`
  unfoldable pub get_total :
      (Iterator V → ℕ) → Cache R W S → Process → Iterator V → Option ℕ × Iterator V × Process
  unfolding totals
  get_total field cache p iterator =
      if iterator.initialized
      then if iterator.totals_flag
        then (some (field iterator), iterator, p)
        else (let (it, p₁) = totals cache p iterator in (some (field it), it, p₁))
      else (none, iterator, p)
