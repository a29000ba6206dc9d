-- ===== src/Cache/Info.antt =====
-- `immutable_cache_cache_info` lists the entries of the view, each once.
use mathlib.Core.Path.{subst}
use immutable_cache_pecl.Prelude.{
  ℕ, ◌%◌, ◌^◌, ◌≡◌, refl, sym, true, false, List, [], some, arith, length, get_or, Option-cases,
  inl, inr,
}
use immutable_cache_pecl.Cache.Entry.{Entry}
use immutable_cache_pecl.Cache.Locks.{Process, Grant, rlock_global}
use immutable_cache_pecl.Cache.State.{Cache, Shm, of_cache}
use immutable_cache_pecl.Cache.Slots.{find_in, rlocked_find_nostat, hash_slot}
use immutable_cache_pecl.Cache.Operations.{
  LinkInfo, Info, link_info, info_of, chain_infos, slot_infos, cache_info,
}
use immutable_cache_pecl.Cache.Chains.{Frozen, frozen}
use immutable_cache_pecl.Cache.View.{view, IsValid}
use immutable_cache_pecl.Cache.Listing.{
  All, Any, spread_total, Tells, slot_infos-counts, IsHome-found, IsHome-hashed, infos-All,
  infos-Any, slot_infos-All, slot_infos-Any,
}

module _ {V R W S : Type 0} (shm : Shm V R W S) (c : Cache R W S) (valid : IsValid shm c) where
  -- What a listing comes to: as many items as there are entries, each telling of the entry that
  -- the view has under its key.
  pub record Lists (list : List LinkInfo) (slots : List (ℕ × ℕ)) : Type 0 where
    pub number : length list % 2 ^ 64 ≡ c.header.nentries
    pub spread : spread_total slots ≡ length list
    pub sound : All (λ li. (f : Frozen W) × (view shm c li.info ≡ some f) × Tells f li) list

  view-found :
      (j : ℕ) (x : Entry W)
      → find_in (get_or c.slots j []) x.key.val x.key.h ≡ some x
      → x.key.h ≡ shm.hash x.key.val
      → x.key.h % c.nslots ≡ j
      → view shm c x.key.val ≡ some (frozen x)
  unfolding view rlocked_find_nostat hash_slot
  view-found j x found hashed placed = rw (← hashed, placed, found)

  view-listed :
      (key : List ℕ) (f : Frozen W)
      → view shm c key ≡ some f
      → Any
          (λ li. (li.info ≡ key) × Tells f li)
          (chain_infos (get_or c.slots (shm.hash key % c.nslots) []))
  unfolding view rlocked_find_nostat hash_slot
  view-listed key f there =
      let es = get_or c.slots (shm.hash key % c.nslots) [] in
      elim (Option-cases (find_in es key (shm.hash key))) [
        | inl missing ↦ absurd (ground arith)
        | inr (e, found) ↦
            let same : frozen e ≡ f = ground arith in
            subst (λ (g : Frozen W). Any (λ li. (li.info ≡ key) × Tells g li) (chain_infos es)) same
              (infos-Any es key (shm.hash key) e found)
      ]

  slot_infos-Lists : Lists (slot_infos 0 c.slots).0 (slot_infos 0 c.slots).1
  unfolding link_info
  slot_infos-Lists =
      let counts = slot_infos-counts 0 c.slots in
      record {
        number = omega arith;
        spread = omega arith;
        sound = slot_infos-All _ 0 c.slots λ j.
            let es = get_or c.slots j [] in
            let home = valid.placed j in
            infos-All _ _ _
              (λ x found hashed. (
                frozen x,
                view-found j x found hashed.0 hashed.1,
                record { info = refl; creation_time = refl; mem_size = refl },
              ))
              es (IsHome-found shm.hash c.nslots j es home)
              (IsHome-hashed shm.hash c.nslots j es home);
      }

  module _ (grant : Grant) (p : Process) (granted : (rlock_global grant p).0 ≡ true) where
    -- If the global read lock is granted, the full listing of a valid cache has as many items,
    -- modulo 2^64, as the header counts, the slot distribution sums to the same number, and each
    -- item tells of the entry that the view has under its key.
    pub cache_info-Lists :
        (i : Info) × (list : List LinkInfo) × (slots : List (ℕ × ℕ)) × ((cache_info grant
            (of_cache (some c) p)
            false).0
          ≡ some i)
        × (i.lists ≡ some (list, slots))
        × (i.num_entries ≡ length list % 2 ^ 64)
        × Lists list slots
    unfolding cache_info
    cache_info-Lists =
        let all = slot_infos 0 c.slots in
        (
          info_of c false,
          all.0,
          all.1,
          rw (granted, cache_info),
          refl,
          sym slot_infos-Lists.number,
          slot_infos-Lists,
        )

    -- If the global read lock is granted, the full listing of a valid cache has an item for every
    -- key of the view, with its creation time and size.
    pub cache_info_complete :
        (key : List ℕ) (f : Frozen W)
        → view shm c key ≡ some f
        → (i : Info) × (list : List LinkInfo) × (slots : List (ℕ × ℕ)) × ((cache_info grant
              (of_cache (some c) p)
              false).0
            ≡ some i)
          × (i.lists ≡ some (list, slots))
          × Any (λ li. (li.info ≡ key) × Tells f li) list
    unfolding cache_info
    cache_info_complete key f there =
        let all = slot_infos 0 c.slots in
        (
          info_of c false,
          all.0,
          all.1,
          rw (granted, cache_info),
          refl,
          slot_infos-Any _ 0 (shm.hash key % c.nslots) c.slots (view-listed key f there),
        )
