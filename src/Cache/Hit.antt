-- ===== src/Cache/Hit.antt =====
-- `immutable_cache_cache_rlocked_find` against the abstract view.
use immutable_cache_pecl.Prelude.{
  ℕ, ◌%◌, ◌<◌, ◌≡◌, refl, ap, ◌∙◌, Bool, true, false, List, [], Option, arith, length, get_or, set,
  length-set, get_or-set, ◌==◌, Bool-cases, Option-cases, ==_iff, inl, inr,
}
use immutable_cache_pecl.Cache.Entry.{Entry}
use immutable_cache_pecl.Cache.State.{Header, Cache, Shm}
use immutable_cache_pecl.Cache.Slots.{
  find_in, touch_in, add64, hash_slot, rlocked_find_nostat, rlocked_find,
}
use immutable_cache_pecl.Cache.Chains.{frozen?, find_in-touch_in}
use immutable_cache_pecl.Cache.View.{
  entries-set, slots_mem-set, length-touch_in, IsHome-touch_in, view, IsValid,
}

module _ {V R W S : Type 0} (shm : Shm V R W S) (key : List ℕ) (t : ℕ) where
  module _ (c : Cache R W S) (valid : IsValid shm c) where
    abbrev at : ℕ
    at = shm.hash key % c.nslots

    abbrev touched : List (Entry W)
    touched = touch_in (get_or c.slots at []) key (shm.hash key) t

    slot_lt : at < length c.slots
    slot_lt = omega arith

    view-touched :
        (h : Header) (q : List ℕ)
        → view shm (record c { header = h; slots = set c.slots at touched }) q ≡ view shm c q
    unfolding view rlocked_find_nostat hash_slot
    view-touched h q =
        let there : ℕ = shm.hash q % c.nslots in
        elim (Bool-cases (at == there)) [
          | inl same ↦
              rw (get_or-set, slot_lt, same)
                (find_in-touch_in (get_or c.slots at []) key (shm.hash key) t q (shm.hash q)
                  ∙ ap (λ i. frozen? (find_in (get_or c.slots i []) q (shm.hash q)))
                      ((==_iff at there).0 same))
          | inr other ↦ rw (get_or-set, slot_lt, other)
        ]

    IsValid-touched :
        (n : ℕ)
        → IsValid shm
            (record c { header = record (c.header) { nhits = n }; slots = set c.slots at touched })
    IsValid-touched n = record {
      width = length-set c.slots at touched ∙ valid.width;
      positive = valid.positive;
      placed = λ i.
          rw (get_or-set, slot_lt)
            (elim (Bool-cases (at == i)) [
              | inl same ↦ rw same (
                  IsHome-touch_in shm.hash c.nslots i _ key (shm.hash key) t
                    (rw ((==_iff at i).0 same) (valid.placed i)))
              | inr other ↦ rw other (valid.placed i)
            ]);
      counted = omega (
        arith,
        entries-set c.slots at touched slot_lt,
        length-touch_in (get_or c.slots at []) key (shm.hash key) t,
      );
      inserted = valid.inserted;
      used = omega (
        arith,
        slots_mem-set c.slots at touched slot_lt,
        length-touch_in (get_or c.slots at []) key (shm.hash key) t,
      );
    }

  -- What a lookup leaves: the result is the view at the key, and the view does not change.
  pub record Looked (c : Cache R W S) (r : Option (Entry W) × Cache R W S) : Type 0 where
    pub result : frozen? r.0 ≡ view shm c key
    pub same : (q : List ℕ) → view shm r.1 q ≡ view shm c q
    pub valid : IsValid shm r.1
    pub sma : r.1.sma ≡ c.sma
    pub serializer : r.1.serializer ≡ c.serializer

  pub rlocked_find-Looked :
      (protected : Bool) (c : Cache R W S)
      → IsValid shm c
      → Looked c (rlocked_find shm protected c key t)
  unfolding rlocked_find hash_slot view rlocked_find_nostat
  rlocked_find-Looked true c valid =
      elim (Option-cases
        (find_in (get_or c.slots (shm.hash key % c.nslots) []) key (shm.hash key))) [
          | inl missing ↦
              rw (missing, rlocked_find)
                (record {
                  result = rw missing;
                  same = λ q. refl;
                  valid = valid;
                  sma = refl;
                  serializer = refl;
                })
          | inr (e, found) ↦
              rw (found, rlocked_find)
                (record {
                  result = rw found;
                  same = λ q. refl;
                  valid = valid;
                  sma = refl;
                  serializer = refl;
                })
        ]
  rlocked_find-Looked false c valid =
      elim (Option-cases
        (find_in (get_or c.slots (shm.hash key % c.nslots) []) key (shm.hash key))) [
          | inl missing ↦
              rw (missing, rlocked_find)
                (record {
                  result = rw missing;
                  same = λ q. refl;
                  valid = record {
                    width = valid.width;
                    positive = valid.positive;
                    placed = valid.placed;
                    counted = valid.counted;
                    inserted = valid.inserted;
                    used = valid.used;
                  };
                  sma = refl;
                  serializer = refl;
                })
          | inr (e, found) ↦
              rw (found, rlocked_find)
                (record {
                  result = rw found;
                  same =
                      view-touched c valid (record (c.header) { nhits = add64 c.header.nhits 1 });
                  valid = IsValid-touched c valid (add64 c.header.nhits 1);
                  sma = refl;
                  serializer = refl;
                })
        ]
