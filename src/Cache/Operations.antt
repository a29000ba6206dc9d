-- ===== src/Cache/Operations.antt =====
-- immutable_cache_cache.c: the exported operations, with their lock calls and early returns. Each
-- takes the shared memory interface, the system's answers to lock calls, and the world.
use immutable_cache_pecl.Prelude.{
  ℕ, ◌+◌, Bool, true, false, ◌&&◌, List, [], ◌∷◌, ◌++◌, Option, none, some, get_or, length, memcmp,
  ◌==◌, if◌then◌else◌,
}
use immutable_cache_pecl.Cache.Entry.{ZendString, Entry, init_entry}
use immutable_cache_pecl.Cache.Locks.{
  Grant, wlock, wunlock, rlock, runlock, rlock_global, runlock_global,
}
use immutable_cache_pecl.Cache.State.{Cache, World, Shm}
use immutable_cache_pecl.Cache.Slots.{
  hash_slot, find_in, wlocked_insert_exclusive, rlocked_find_nostat, rlocked_find,
}

-- `array_add_long` for each statistic: what `immutable_cache_cache_link_info` returns.
pub record LinkInfo : Type 0 where
  pub info : List ℕ
  pub num_hits : ℕ
  pub creation_time : ℕ
  pub access_time : ℕ
  pub mem_size : ℕ

-- The array of `immutable_cache_cache_stat`.
pub record Stat : Type 0 where
  pub hits : ℕ
  pub access_time : ℕ
  pub creation_time : ℕ

-- The array of `immutable_cache_cache_info`, less the constant `memory_type`. The last two fields
-- are absent if `limited` is set.
pub record Info : Type 0 where
  pub num_slots : ℕ
  pub num_hits : ℕ
  pub num_misses : ℕ
  pub num_inserts : ℕ
  pub num_entries : ℕ
  pub start_time : ℕ
  pub mem_size : ℕ
  pub lists : Option (List LinkInfo × List (ℕ × ℕ))

-- `immutable_cache_cache_link_info`
unfoldable pub link_info : {W : Type 0} → Entry W → LinkInfo
link_info p = record {
  info = p.key.val;
  num_hits = p.nhits;
  creation_time = p.ctime;
  access_time = p.atime;
  mem_size = p.mem_size;
}

module _ {W : Type 0} where
  -- the inner loop over one chain
  unfoldable pub chain_infos : List (Entry W) → List LinkInfo
  chain_infos [] = []
  chain_infos (p ∷ ps) = link_info p ∷ chain_infos ps

  -- the loop over the slots from slot `i` on: `cache_list`, then `slot_distribution`
  unfoldable pub slot_infos : ℕ → List (List (Entry W)) → List LinkInfo × List (ℕ × ℕ)
  unfolding chain_infos
  slot_infos i [] = ([], [])
  slot_infos i (c ∷ cs) =
      let (list, slots) = slot_infos (i + 1) cs in
      (chain_infos c ++ list, if length c == 0 then slots else (i, length c) ∷ slots)

  unfoldable pub stat_of : Entry W → Stat
  stat_of entry = record {
    hits = entry.nhits;
    access_time = entry.atime;
    creation_time = entry.ctime;
  }

-- `strcmp(name, "php") == 0`
abbrev pub name_is_php : List ℕ → Bool
name_is_php name = length name == 3 && memcmp name (b'p' ∷ b'h' ∷ b'p' ∷ []) 3

module _ {V R W S : Type 0} (shm : Shm V R W S) (grant : Grant) where
  -- `immutable_cache_cache_store`: `t` is the time of the call
  unfoldable pub store : World R W S → ZendString → V → ℕ → Bool × World R W S
  unfolding init_entry wlocked_insert_exclusive wlock wunlock
  store w key val t = elim (w.cache) [
    | none ↦ (false, w)
    | some c ↦
        let orig = init_entry key val t in
        let (persisted, sma) = shm.persist c.sma c.serializer orig in
        let p = shm.persist_process grant c.sma c.serializer orig w.process in
        elim persisted [
          | none ↦ (false, record { cache = some (record c { sma = sma }); process = p })
          | some entry ↦
              let h = shm.hash key.val in
              let (locked, p₁) = wlock grant h p in
              if locked
              then (let (ret, c') = wlocked_insert_exclusive shm (record c { sma = sma }) entry in
                  let p₂ = wunlock h p₁ in
                  if ret then (true, record { cache = some c'; process = p₂ }) else (
                    false,
                    record {
                      cache = some (record c' { sma = shm.free_entry c'.sma entry });
                      process = shm.free_process grant c'.sma entry p₂;
                    },
                  ))
              else (
                false,
                record {
                  cache = some (record c { sma = shm.free_entry sma entry });
                  process = shm.free_process grant sma entry p₁;
                },
              )
        ]
  ]

  -- `immutable_cache_cache_find`
  unfoldable pub find : World R W S → List ℕ → ℕ → Option (Entry W) × World R W S
  unfolding rlocked_find rlock runlock
  find w key t = elim (w.cache) [
    | none ↦ (none, w)
    | some c ↦
        let h = shm.hash key in
        let (locked, p₁) = rlock grant h w.process in
        if locked
        then (let (entry, c') = rlocked_find shm p₁.protect_memory c key t in
            (entry, record { cache = some c'; process = runlock h p₁ }))
        else (none, record w { process = p₁ })
  ]

  -- `immutable_cache_cache_fetch`: the body is that of `find`, and then the value is copied out.
  -- The result is the status and the value of `dst`: `none` inside is a PHP null.
  unfoldable pub fetch : World R W S → List ℕ → ℕ → Option (Option V) × World R W S
  unfolding rlocked_find rlock runlock
  fetch w key t = elim (w.cache) [
    | none ↦ (none, w)
    | some c ↦
        let h = shm.hash key in
        let (locked, p₁) = rlock grant h w.process in
        if locked
        then (let (entry, c') = rlocked_find shm p₁.protect_memory c key t in
            let w' = record w { cache = some c'; process = runlock h p₁ } in
            elim entry [
              | none ↦ (none, w')
              | some e ↦ (some (shm.unpersist e.val c'.serializer), w')
            ])
        else (none, record w { process = p₁ })
  ]

  -- `immutable_cache_cache_exists`
  unfoldable pub exists : World R W S → List ℕ → Bool × World R W S
  unfolding rlocked_find_nostat rlock runlock
  exists w key = elim (w.cache) [
    | none ↦ (false, w)
    | some c ↦
        let h = shm.hash key in
        let (locked, p₁) = rlock grant h w.process in
        if locked
        then (
          elim (rlocked_find_nostat shm c key) [ none ↦ false | some e ↦ true ],
          record w { process = runlock h p₁ },
        )
        else (false, record w { process = p₁ })
  ]

  -- `immutable_cache_cache_stat`; `none` is a PHP null
  unfoldable pub stat : World R W S → List ℕ → Option Stat × World R W S
  unfolding find_in hash_slot stat_of rlock runlock
  stat w key = elim (w.cache) [
    | none ↦ (none, w)
    | some c ↦
        let (h, s) = hash_slot shm c key in
        let (locked, p₁) = rlock grant h w.process in
        if locked
        then (
          elim (find_in (get_or c.slots s []) key h) [ none ↦ none | some e ↦ some (stat_of e) ],
          record w { process = runlock h p₁ },
        )
        else (none, record w { process = p₁ })
  ]

  -- `immutable_cache_cache_serializer`: the name "php" counts as loaded without a serializer
  unfoldable pub set_serializer : World R W S → List ℕ → World R W S
  set_serializer w name = elim (w.cache) [
    | none ↦ w
    | some c ↦ elim (c.serializer) [
      | some r ↦ w
      | none ↦
          if c.loaded_serializer
          then w
          else (let found = shm.find_serializer name in
              record w {
                cache = some (record c {
                  serializer = found;
                  loaded_serializer = elim found [ some r ↦ true | none ↦ name_is_php name ];
                });
              })
    ]
  ]

-- The array that `immutable_cache_cache_info` fills.
unfoldable pub info_of : {R W S : Type 0} → Cache R W S → Bool → Info
unfolding slot_infos
info_of c limited = record {
  num_slots = c.nslots;
  num_hits = c.header.nhits;
  num_misses = c.header.nmisses;
  num_inserts = c.header.ninserts;
  num_entries = c.header.nentries;
  start_time = c.header.stime;
  mem_size = c.header.mem_size;
  lists = if limited then none else some (slot_infos 0 c.slots);
}

-- `immutable_cache_cache_info`; `none` is the status 0
unfoldable pub cache_info :
    {R W S : Type 0} → Grant → World R W S → Bool → Option Info × World R W S
unfolding info_of rlock_global runlock_global
cache_info grant w limited = elim (w.cache) [
  | none ↦ (none, w)
  | some c ↦
      let (locked, p₁) = rlock_global grant w.process in
      if locked
      then (some (info_of c limited), record w { process = runlock_global p₁ })
      else (none, record w { process = p₁ })
]
