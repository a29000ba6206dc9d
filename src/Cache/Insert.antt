-- ===== src/Cache/Insert.antt =====
-- `immutable_cache_cache_wlocked_insert_exclusive` against the abstract view.
use mathlib.Core.Option.{or_else}
use mathlib.Core.Path.{subst}
use immutable_cache_pecl.Prelude.{
  ℕ, ◌%◌, ◌<◌, ◌≡◌, ◌≢◌, refl, ap, sym, ◌∙◌, true, false, List, [], none, some, arith, length,
  get_or, set, length-set, get_or-set, ◌==◌, Bool-cases, Option-cases, ==_refl, ==_iff, inl, inr,
}
use immutable_cache_pecl.Cache.Entry.{Entry}
use immutable_cache_pecl.Cache.State.{Cache, Shm}
use immutable_cache_pecl.Cache.Slots.{
  find_in, link, add64, hash_slot, wlocked_insert_exclusive, rlocked_find_nostat,
}
use immutable_cache_pecl.Cache.Chains.{
  Frozen, frozen, eq_none_of_frozen?, key_equals-eq, key_equals_self, link-some, find_in-link,
  find_in_of_link,
}
use immutable_cache_pecl.Cache.View.{
  entries-set, slots_mem-set, length-link, IsHome-link, view, IsValid,
}

module _ {V R W S : Type 0} (shm : Shm V R W S) (c : Cache R W S) (new : Entry W) where
  abbrev pub home : List (Entry W)
  home = get_or c.slots (shm.hash new.key.val % c.nslots) []

  -- the cache after the insertion of a chain
  pub with_chain : List (Entry W) → Cache R W S
  with_chain chain = record c {
    header = record (c.header) {
      mem_size = add64 c.header.mem_size new.mem_size;
      nentries = add64 c.header.nentries 1;
      ninserts = add64 c.header.ninserts 1;
    };
    slots = set c.slots (shm.hash new.key.val % c.nslots) chain;
  }

  -- The key is there already: nothing changes.
  pub insert-present :
      (f : Frozen W)
      → view shm c new.key.val ≡ some f
      → wlocked_insert_exclusive shm c new ≡ (false, c)
  unfolding wlocked_insert_exclusive hash_slot view rlocked_find_nostat
  insert-present f there = elim (Option-cases (link home new new.key.val (shm.hash new.key.val))) [
    | inl stop ↦ rw (stop, wlocked_insert_exclusive)
    | inr (chain, linked) ↦
        let absent = find_in_of_link home chain new new.key.val (shm.hash new.key.val) linked in
        absurd (ground arith)
  ]

  module _ (hashed : new.key.h ≡ shm.hash new.key.val) (valid : IsValid shm c) where
    slot_lt : shm.hash new.key.val % c.nslots < length c.slots
    slot_lt = omega arith

    pub view-with_chain_self :
        (chain : List (Entry W))
        → link home new new.key.val (shm.hash new.key.val) ≡ some chain
        → view shm (with_chain chain) new.key.val ≡ some (frozen new)
    unfolding view rlocked_find_nostat hash_slot with_chain or_else
    view-with_chain_self chain linked =
        let at : ℕ = shm.hash new.key.val % c.nslots in
        let absent = find_in_of_link home chain new new.key.val (shm.hash new.key.val) linked in
        let found =
          find_in-link home chain new new.key.val (shm.hash new.key.val) new.key.val
            (shm.hash new.key.val) linked in
        let same = key_equals_self new new.key.val (shm.hash new.key.val) hashed refl in
        rw (get_or-set, slot_lt, ==_refl at, found, absent, same)

    pub view-with_chain_ne :
        (chain : List (Entry W))
        → link home new new.key.val (shm.hash new.key.val) ≡ some chain
        → (q : List ℕ) → q ≢ new.key.val
        → view shm (with_chain chain) q ≡ view shm c q
    unfolding view rlocked_find_nostat hash_slot with_chain or_else
    view-with_chain_ne chain linked q ne =
        let at : ℕ = shm.hash new.key.val % c.nslots in
        let there : ℕ = shm.hash q % c.nslots in
        let found =
          find_in-link home chain new new.key.val (shm.hash new.key.val) q (shm.hash q) linked in
        elim (Bool-cases (at == there)) [
          | inl same ↦
              ground (
                arith,
                get_or-set c.slots at there chain [],
                found,
                key_equals-eq new q (shm.hash q),
              )
          | inr other ↦ rw (get_or-set, slot_lt, other)
        ]

    pub IsValid-with_chain :
        (chain : List (Entry W))
        → link home new new.key.val (shm.hash new.key.val) ≡ some chain
        → IsValid shm (with_chain chain)
    unfolding with_chain
    IsValid-with_chain chain linked = record {
      width = length-set c.slots _ chain ∙ valid.width;
      positive = valid.positive;
      placed = λ i.
          let at : ℕ = shm.hash new.key.val % c.nslots in
          rw (get_or-set, slot_lt)
            (elim (Bool-cases (at == i)) [
              | inl same ↦ rw same (
                  IsHome-link shm.hash c.nslots i home chain new
                    (subst (λ h. link home new new.key.val h ≡ some chain) (sym hashed) linked)
                    hashed (rw hashed ((==_iff at i).0 same))
                    (rw ((==_iff at i).0 same) (valid.placed i)))
              | inr other ↦ rw other (valid.placed i)
            ]);
      counted = omega (
        arith,
        entries-set c.slots (shm.hash new.key.val % c.nslots) chain slot_lt,
        length-link home chain new new.key.val (shm.hash new.key.val) linked,
      );
      inserted = ap (λ n. add64 n 1) valid.inserted;
      used = omega (
        arith,
        slots_mem-set c.slots (shm.hash new.key.val % c.nslots) chain slot_lt,
        length-link home chain new new.key.val (shm.hash new.key.val) linked,
      );
    }

    -- The key is absent: the entry stands in the view under its key, and nothing else changes there.
    pub insert-absent :
        view shm c new.key.val ≡ none
        → (c' : Cache R W S) × (wlocked_insert_exclusive shm c new ≡ (true, c'))
          × (view shm c' new.key.val ≡ some (frozen new))
          × ((q : List ℕ) → q ≢ new.key.val → view shm c' q ≡ view shm c q)
          × IsValid shm c'
          × (c'.sma ≡ c.sma)
          × (c'.serializer ≡ c.serializer)
    unfolding wlocked_insert_exclusive hash_slot view rlocked_find_nostat with_chain
    insert-absent absent =
        let nothing : find_in home new.key.val (shm.hash new.key.val) ≡ none =
          eq_none_of_frozen? _ absent in
        let (chain, linked) = link-some home new new.key.val (shm.hash new.key.val) nothing in
        (
          with_chain chain,
          rw (linked, wlocked_insert_exclusive),
          view-with_chain_self chain linked,
          view-with_chain_ne chain linked,
          IsValid-with_chain chain linked,
          refl,
          refl,
        )
