-- ===== src/Cache/Preload/Stored.antt =====
-- What a preload does with one file.
use mathlib.Core.Path.{subst}
use mathlib.Core.Option.{some-injective, none-ne-some}
use immutable_cache_pecl.Prelude.{
  suc, ℕ, ◌≡◌, ap, sym, ◌∙◌, true, false, List, ◌∷◌, Option, none, some, arith, same, same_refl,
  eq_of_same, Bool-cases, Option-cases, inl, inr,
}
use immutable_cache_pecl.Cache.Entry.{Entry, init_entry}
use immutable_cache_pecl.Cache.Locks.{
  Process, Grant, Lock, sma_write, fine_write, lookup_fine_grained_lock, wlock,
}
use immutable_cache_pecl.Cache.State.{Cache, World, Shm, Persists, of_cache}
use immutable_cache_pecl.Cache.Operations.{store}
use immutable_cache_pecl.Cache.Chains.{Frozen, frozen}
use immutable_cache_pecl.Cache.View.{view, IsValid}
use immutable_cache_pecl.Cache.Store.{
  no_memory, not_locked, present, stored, store-Outcome, IsValid-with_sma, view-with_sma,
}
use immutable_cache_pecl.Persist.Tables.{not_both}
use immutable_cache_pecl.Cache.Preload.{Files, data_unserialize, key_of, load_data}

-- Locks are granted, no value of a file is undefined, and where there is room for some files, the next
-- one can be persisted under its key, which leaves room for the others. `room k s` says that the state
-- `s` of the allocator has room for `k` files.
pub record IsPlentiful {V R W S : Type 0} (shm : Shm V R W S) (grant : Grant) (files : Files V)
    (serializer : Option R) (room : ℕ → S → Type 0) : Type 0 where
  pub granted : (l : Lock) (held : List Lock) → grant l held ≡ true
  pub made :
      (k : ℕ) (s : S) (path key : List ℕ) (t : ℕ)
      → key_of path ≡ some key
      → room (suc k) s
      → (e : Entry W) × (let q =
            shm.persist s serializer
              (init_entry (files.string_init key) (data_unserialize files path) t) in
          (q.0 ≡ some e) × room k q.1 × room k (shm.free_entry q.1 e))
  pub fewer : (k : ℕ) (s : S) → room (suc k) s → room k s
  pub defined : (path : List ℕ) → files.is_undef (data_unserialize files path) ≡ false
  pub named : (key : List ℕ) → (files.string_init key).val ≡ key

wlock_granted :
    (grant : Grant) (h : ℕ) (p : Process)
    → ((l : Lock) (held : List Lock) → grant l held ≡ true)
    → (wlock grant h p).0 ≡ true
unfolding wlock
wlock_granted grant h p granted = ground (
  arith,
  granted sma_write p.held,
  granted (fine_write (lookup_fine_grained_lock h)) (sma_write ∷ p.held),
)

module _ {V R W S : Type 0} (shm : Shm V R W S) (serializer : Option R) (room : ℕ → S → Type 0)
    (k : ℕ) where
  -- a valid cache that has the serializer, and room for `k` files
  pub record IsReady (c : Cache R W S) : Type 0 where
    pub valid : IsValid shm c
    pub same : c.serializer ≡ serializer
    pub left : room k c.sma

  -- such a cache after a step from `c`
  pub record After (c : Cache R W S) (w : World R W S) : Type 0 where
    pub cache : Cache R W S
    pub process : Process
    pub eq : w ≡ of_cache (some cache) process
    pub ready : IsReady cache
    pub kept : (q : List ℕ) (f : Frozen W) → view shm c q ≡ some f → view shm cache q ≡ some f

module _ {V R W S : Type 0} (shm : Shm V R W S) where
  abbrev pub Holds : (c : Cache R W S) → List ℕ → Type 0
  Holds c key = (f : Frozen W) × (view shm c key ≡ some f)

module _ {V R W S : Type 0} {shm : Shm V R W S} {serializer : Option R}
    {room : ℕ → S → Type 0} where
  abbrev pub carry :
      {k : ℕ} {c : Cache R W S} {v w : World R W S}
      → v ≡ w
      → After shm serializer room k c w
      → After shm serializer room k c v
  carry e a = record {
    cache = a.cache;
    process = a.process;
    eq = e ∙ a.eq;
    ready = a.ready;
    kept = a.kept;
  }

  abbrev pub and_then :
      {k l : ℕ} {c : Cache R W S} {w v : World R W S} (a : After shm serializer room k c w)
      → After shm serializer room l a.cache v
      → After shm serializer room l c v
  and_then a b = record {
    cache = b.cache;
    process = b.process;
    eq = b.eq;
    ready = b.ready;
    kept = λ q f h. b.kept q f (a.kept q f h);
  }

module _ {V R W S : Type 0} (shm : Shm V R W S) (laws : Persists shm) (grant : Grant)
    (files : Files V) (serializer : Option R) (room : ℕ → S → Type 0)
    (plenty : IsPlentiful shm grant files serializer room) where
  -- the entry of a file is made, and memory is left if it stays or is freed
  persisted-made :
      (k : ℕ) (c : Cache R W S) (path key : List ℕ) (t : ℕ)
      → key_of path ≡ some key
      → IsReady shm serializer room (suc k) c
      → (e : Entry W) × (let q =
            shm.persist c.sma c.serializer
              (init_entry (files.string_init key) (data_unserialize files path) t) in
          (q.0 ≡ some e) × room k q.1 × room k (shm.free_entry q.1 e))
  persisted-made k c path key t e r =
      subst
        (λ o.
          (x : Entry W) × (let q =
              shm.persist c.sma o
                (init_entry (files.string_init key) (data_unserialize files path) t) in
            (q.0 ≡ some x) × room k q.1 × room k (shm.free_entry q.1 x)))
        (sym r.same) (plenty.made k c.sma path key t e r.left)

  pub store-After :
      (k : ℕ) (c : Cache R W S) (p : Process) (path key : List ℕ) (t : ℕ)
      → key_of path ≡ some key
      → IsReady shm serializer room (suc k) c
      → (a : After shm serializer room k c
          (store shm grant
            (of_cache (some c) p)
            (files.string_init key)
            (data_unserialize files path)
            t).1)
        × ((f : Frozen W) × (view shm a.cache (files.string_init key).val ≡ some f))
  unfolding init_entry
  store-After k c p path name t named r =
      let key = files.string_init name in
      let val = data_unserialize files path in
      let (x₁, (made₁, left, left_freed)) = persisted-made k c path name t named r in
      elim (store-Outcome shm laws grant c p key val t r.valid) [
        | no_memory failed e ↦ absurd (none-ne-some x₁ (sym failed ∙ made₁))
        | not_locked x made refused e ↦
            absurd
              (not_both (sym (wlock_granted grant (shm.hash key.val) _ plenty.granted) ∙ refused))
        | present x f made granted there e ↦
            let is : x₁ ≡ x = some-injective x₁ x (sym made₁ ∙ made) in
            (
              record {
                cache = _;
                process = _;
                eq = ap (λ r. r.1) e;
                ready = record {
                  valid = IsValid-with_sma shm laws grant c p key val t _ r.valid;
                  same = r.same;
                  left =
                      subst
                        (λ y. room k (
                          shm.free_entry (shm.persist c.sma c.serializer (init_entry key val t)).1
                            y))
                        is left_freed;
                };
                kept = λ q g h. view-with_sma shm laws grant c p key val t _ q ∙ h;
              },
              (f, view-with_sma shm laws grant c p key val t _ key.val ∙ there),
            )
        | stored x c' made granted absent after valid' sma kept_serializer e ↦ (
          record {
            cache = c';
            process = _;
            eq = ap (λ r. r.1) e;
            ready = record {
              valid = valid';
              same = kept_serializer ∙ r.same;
              left = subst (room k) (sym sma) left;
            };
            kept = λ q f h. elim (Bool-cases (same q key.val)) [
              | inl it ↦ cc (ap (view shm c) (eq_of_same q key.val it))
              | inr apart ↦ ground (arith, after q)
            ];
          },
          (frozen x, ground (arith, after key.val, same_refl key.val)),
        )
      ]

  load_steps :
      (w : World R W S) (data_file : List ℕ) (t : ℕ) (key : List ℕ)
      → key_of data_file ≡ some key
      → load_data shm grant files w data_file t
        ≡ (true, (store shm grant w (files.string_init key) (data_unserialize files data_file) t).1)
  unfolding load_data
  load_steps w data_file t key e = rw (load_data, e, plenty.defined data_file)

  load_none :
      (w : World R W S) (data_file : List ℕ) (t : ℕ)
      → key_of data_file ≡ none
      → load_data shm grant files w data_file t ≡ (false, w)
  unfolding load_data
  load_none w data_file t e = rw (load_data, e)

  pub load_data-After :
      (k : ℕ) (c : Cache R W S) (p : Process) (data_file : List ℕ) (t : ℕ) (key : List ℕ)
      → IsReady shm serializer room (suc k) c
      → key_of data_file ≡ some key
      → (a : After shm serializer room k c
          (load_data shm grant files (of_cache (some c) p) data_file t).1)
        × ((load_data shm grant files (of_cache (some c) p) data_file t).0 ≡ true)
        × Holds shm a.cache key
  load_data-After k c p data_file t key r e =
      let steps = load_steps (of_cache (some c) p) data_file t key e in
      let (a, (f, held)) = store-After k c p data_file key t e r in
      (
        carry (ap (λ r. r.1) steps) a,
        ap (λ r. r.0) steps,
        (f, ap (view shm a.cache) (sym (plenty.named key)) ∙ held),
      )

  -- nothing happens, and there is room for one file more than is needed
  pub stay :
      (k : ℕ) (c : Cache R W S) (p : Process)
      → IsReady shm serializer room (suc k) c
      → IsReady shm serializer room k c
  stay k c p r = record { valid = r.valid; same = r.same; left = plenty.fewer k c.sma r.left }

  -- any file
  pub load_any-After :
      (k : ℕ) (c : Cache R W S) (p : Process) (data_file : List ℕ) (t : ℕ)
      → IsReady shm serializer room (suc k) c
      → After shm serializer room k c
          (load_data shm grant files (of_cache (some c) p) data_file t).1
  load_any-After k c p data_file t r = elim (Option-cases (key_of data_file)) [
    | inl e ↦ record {
      cache = c;
      process = p;
      eq = ap (λ r. r.1) (load_none (of_cache (some c) p) data_file t e);
      ready = stay k c p r;
      kept = λ q f h. h;
    }
    | inr (key, e) ↦ (load_data-After k c p data_file t key r e).0
  ]
