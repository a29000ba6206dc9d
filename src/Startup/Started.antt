-- ===== src/Startup/Started.antt =====
-- What the start of the module and of a request leave: a valid cache.
use mathlib.Core.Path.{subst}
use immutable_cache_pecl.Prelude.{
  ℕ, ◌+◌, ◌*◌, ◌/◌, ◌%◌, ◌^◌, ◌==◌, if◌then◌else◌, ltb, ◌≡◌, refl, sym, ◌∙◌, ap, true, false, ◌&&◌,
  ◌||◌, not, List, Option, none, some, Bool-cases, Option-cases, inl, inr, arith,
}
use mathlib.Core.Option.{some-injective, none-ne-some}
use immutable_cache_pecl.Cache.Locks.{Process, Grant}
use immutable_cache_pecl.Cache.State.{Cache, Shm, Persists, of_cache}
use immutable_cache_pecl.Cache.Operations.{set_serializer, name_is_php}
use immutable_cache_pecl.Cache.Chains.{Frozen}
use immutable_cache_pecl.Cache.View.{view, IsValid}
use immutable_cache_pecl.Cache.Keeps.{held_in, IsSound, set_serializer-Keeps}
use immutable_cache_pecl.Cache.Immutable.{Reach, here, Reach-Keeps}
use immutable_cache_pecl.Cache.Create.{
  create, create-IsValid, make_prime, cache_header_size, pointer_size, fresh_cache,
}
use immutable_cache_pecl.Cache.Slots.{rlocked_find_nostat, hash_slot}
use immutable_cache_pecl.Sma.Setup.{State}
use immutable_cache_pecl.Mapping.{Outcome, fatal, done}
use immutable_cache_pecl.Serializers.{Serializer, find_serializer}
use immutable_cache_pecl.Startup.Preloading.{Goes, preload-Goes}
use immutable_cache_pecl.Startup.{
  Settings, Module, Surroundings, with_table, register_builtin, world_of, preload_all,
  initialize_with, initialize, minit, rinit, mark_serializer,
}

-- the serializer of a cache that is created
created-serializer :
    {R W S : Type 0} (malloc : S → ℕ → ℕ × S) (sma : S) (serializer : Option R) (size_hint now : ℕ)
    (p : Process) (c : Cache R W S) (q : Process)
    → create malloc sma serializer size_hint now p ≡ some (c, q)
    → c.serializer ≡ serializer
unfolding create
created-serializer malloc sma serializer size_hint now p c q made =
    let n = make_prime ((if ltb 0 size_hint then size_hint else 2000) % 2 ^ 32) in
    let r = malloc sma (cache_header_size + n * pointer_size + 64) in
    elim (Bool-cases ((r.0 + 63) / 64 * 64 == 0)) [
      | inl missing ↦ absurd (ground arith)
      | inr there ↦
          let same : fresh_cache r.1 serializer n now ≡ c = ground arith in
          ap (λ d. d.serializer) (sym same)
    ]

table-Persists :
    {V R W S : Type 0} (shm : Shm V R W S)
    → Persists shm
    → (table : List (Serializer R)) → Persists (with_table shm table)
table-Persists shm laws table = record { kept = laws.kept }

-- the assignment of `loaded_serializer` and what comes before it
module _ {V R W S : Type 0} (shm : Shm V R W S) where
  with_loaded : Cache R W S → Cache R W S
  with_loaded c = record c { loaded_serializer = true }

  with_loaded-view :
      (c : Cache R W S) (key : List ℕ) → view shm (with_loaded c) key ≡ view shm c key
  unfolding view rlocked_find_nostat hash_slot with_loaded
  with_loaded-view c key = refl

  with_loaded-IsValid : (c : Cache R W S) → IsValid shm c → IsValid shm (with_loaded c)
  unfolding with_loaded
  with_loaded-IsValid c valid = record {
    width = valid.width;
    positive = valid.positive;
    placed = valid.placed;
    counted = valid.counted;
    inserted = valid.inserted;
    used = valid.used;
  }

  set_serializer-cache :
      (grant : Grant) (c : Cache R W S) (p : Process) (name : List ℕ)
      → (d : Cache R W S) × ((set_serializer shm grant (of_cache (some c) p) name).cache ≡ some d)
  unfolding set_serializer
  set_serializer-cache grant c p name = elim (Option-cases (c.serializer)) [
    | inr (r, loaded) ↦
        (c, rw (loaded, set_serializer) (ap (λ q. some (record c { serializer = q })) loaded))
    | inl missing ↦ elim (Bool-cases (c.loaded_serializer)) [
      | inl tried ↦ (
        c,
        rw (missing, set_serializer, tried)
            (ap (λ r. some (record c { serializer = r; loaded_serializer = true })) missing),
      )
      | inr fresh ↦ (
        record c {
          serializer = shm.find_serializer name;
          loaded_serializer = elim (shm.find_serializer name) [
            | some r ↦ true
            | none ↦ name_is_php name
          ];
        },
        rw (missing, set_serializer, fresh) refl,
      )
    ]
  ]

module _ {V R W O M : Type 0} (shm : Shm V R W State) (laws : Persists shm)
    (malloc : State → ℕ → ℕ × State) (out : Surroundings V R O M) (set : Settings) where
  -- The cache was created empty, with the serializer of the settings, and what it is now was reached
  -- by stores.
  pub record Started (m : Module R W O) : Type 0 where
    pub created : Cache R W State
    pub process : Process
    pub valid : IsValid (with_table shm m.serializers) created
    pub empty : (key : List ℕ) → view (with_table shm m.serializers) created key ≡ none
    pub serializer : created.serializer ≡ find_serializer set.serializer_name m.serializers
    pub reach :
        Reach
          (with_table shm m.serializers)
          (of_cache (some created) process)
          (world_of shm malloc out m)
    pub cache : Cache R W State
    pub exists : m.cache ≡ some cache
    pub enabled : m.enabled ≡ true
    pub initialized : m.initialized ≡ true

  preload_all-Goes :
      (path : Option (List ℕ)) (table : List (Serializer R)) (c : Cache R W State) (p : Process)
      (valid : IsValid (with_table shm table) c)
      → Goes
          (with_table shm table)
          (table-Persists shm laws table)
          out.grant
          out.files
          (of_cache (some c) p)
          valid
          (preload_all shm malloc out path table (of_cache (some c) p))
  unfolding preload_all
  preload_all-Goes none table c p valid = record { reach = here; cache = c; exists = refl }
  preload_all-Goes (some path) table c p valid =
      preload-Goes (with_table shm table) (table-Persists shm laws table) out.grant out.files
        (of_cache (some c) p) valid path out.time (out.names path) (of_cache (some c) p)
        (record { reach = here; cache = c; exists = refl })

  initialize_with-Started :
      (m m' : Module R W O) (sma : State)
      → m.enabled ≡ true
      → initialize_with shm malloc out set m sma ≡ some m'
      → Started m'
  unfolding initialize_with
  initialize_with-Started m m' sma on ended =
      let table = register_builtin out.php out.igbinary m.serializers in
      let found = find_serializer set.serializer_name table in
      elim (Option-cases (create {W = W} malloc sma found set.entries_hint out.now m.process)) [
        | inl failed ↦ absurd (none-ne-some m' (sym (rw (initialize_with, failed) refl) ∙ ended))
        | inr ((c, p), made) ↦
            let (valid, empty) =
              create-IsValid (with_table shm table) malloc sma found set.entries_hint out.now
                m.process c p made in
            let g = preload_all-Goes set.preload_path table c p valid in
            let w = preload_all shm malloc out set.preload_path table (of_cache (some c) p) in
            let x : Module R W O = record m {
              initialized = true;
              sma = sma;
              serializers = table;
              cache = w.cache;
              process = w.process;
            } in
            let is : initialize_with shm malloc out set m sma ≡ some x =
              rw (initialize_with, made) refl in
            subst Started (some-injective x m' (sym is ∙ ended)) (record {
              created = c;
              process = p;
              valid = valid;
              empty = empty;
              serializer =
                  created-serializer malloc sma found set.entries_hint out.now m.process c p made;
              reach = g.reach;
              cache = g.cache;
              exists = g.exists;
              enabled = on;
              initialized = refl;
            })
      ]

  outcome-Started :
      (m m' : Module R W O) (q : Outcome M State)
      → m.enabled ≡ true
      → (elim q [ fatal f s ↦ none | done sma mask s ↦ initialize_with shm malloc out set m sma ])
        ≡ some m'
      → Started m'
  outcome-Started m m' (fatal f s) on ended = absurd (none-ne-some m' ended)
  outcome-Started m m' (done sma mask s) on ended = initialize_with-Started m m' sma on ended

  initialize-Started :
      (m m' : Module R W O)
      → m.enabled ≡ true
      → initialize shm malloc out set m ≡ some m'
      → Started m'
  unfolding initialize
  initialize-Started m m' on ended = outcome-Started m m' _ on ended

  minit-Started :
      (m m' : Module R W O)
      → (set.enabled && (set.enable_cli || not set.is_cli)) ≡ true
      → m.initialized ≡ false
      → minit shm malloc out set m ≡ some m'
      → Started m'
  unfolding minit
  minit-Started m m' on new ended =
      initialize-Started (record m { enabled = true }) m' refl
        (sym (rw (minit, on, new) refl) ∙ ended)

  -- a cache that is ready for the operations of a request, and holds what `m` held
  pub record Ready (m m' : Module R W O) : Type 0 where
    pub cache : Cache R W State
    pub exists : m'.cache ≡ some cache
    pub valid : IsValid (with_table shm m.serializers) cache
    pub loaded : cache.loaded_serializer ≡ true
    pub held :
        (key : List ℕ) (f : Frozen W)
        → held_in (with_table shm m.serializers) m.cache key ≡ some f
        → view (with_table shm m.serializers) cache key ≡ some f

  rinit-Ready : (m : Module R W O) → Started m → Ready m (rinit shm malloc out set m)
  unfolding rinit with_loaded
  rinit-Ready m s =
      let table = with_table shm m.serializers in
      let sound =
        subst (IsSound table) s.exists
          (Reach-Keeps table (table-Persists shm laws m.serializers) s.reach s.valid).sound in
      let w = set_serializer table out.grant (world_of shm malloc out m) set.serializer_name in
      let (d, there) : (d : Cache R W State) × (w.cache ≡ some d) =
        subst
          (λ o.
            (d : Cache R W State) × ((set_serializer table out.grant (of_cache o m.process)
                set.serializer_name).cache
              ≡ some d))
          (sym s.exists)
          (set_serializer-cache table out.grant s.cache m.process set.serializer_name) in
      let k =
        set_serializer-Keeps table out.grant m.cache m.process set.serializer_name
          (subst (IsSound table) (sym s.exists) sound) in
      record {
        cache = with_loaded table d;
        exists = rw (rinit, s.enabled) (ap (mark_serializer shm malloc out) there);
        valid = with_loaded-IsValid table d (subst (IsSound table) there k.sound);
        loaded = refl;
        held = λ key f h.
            with_loaded-view table d key
            ∙ subst (λ o. held_in table o key ≡ some f) there (k.held key f h);
      }

  -- If persisting keeps an entry's key and statistics (`Persists`), the settings enable the
  -- module, it was not initialized, and its start does not end the program, because a segment
  -- cannot be mapped or for want of memory, then it left a module that is enabled and
  -- initialized, whose cache was reached, by exported operations only, from a cache that is valid
  -- and empty and has the serializer that is registered under the name in the settings, whatever
  -- the files that are preloaded and the answers to lock calls; and the start of a request makes
  -- of it a valid cache that counts as having its serializer loaded and holds what was held.
  pub rinit-minit :
      (m m' : Module R W O)
      → (set.enabled && (set.enable_cli || not set.is_cli)) ≡ true
      → m.initialized ≡ false
      → minit shm malloc out set m ≡ some m'
      → Started m' × Ready m' (rinit shm malloc out set m')
  rinit-minit m m' on new ended = let s = minit-Started m m' on new ended in (s, rinit-Ready m' s)
