-- ===== src/Cache/Immutable.antt =====
-- What the cache holds under a key never changes and never goes away: every exported operation
-- keeps the view and the invariant, and so does every sequence of them.
use immutable_cache_pecl.Prelude.{ℕ, ◌≡◌, Bool, List, some}
use immutable_cache_pecl.Cache.Entry.{ZendString}
use immutable_cache_pecl.Cache.Locks.{Process, Grant}
use immutable_cache_pecl.Cache.State.{World, Shm, Persists, of_cache}
use immutable_cache_pecl.Cache.Operations.{
  store, find, fetch, exists, stat, set_serializer, cache_info,
}
use immutable_cache_pecl.Cache.Chains.{Frozen}
use immutable_cache_pecl.Cache.Keeps.{
  held_in, IsSound, Keeps, carry, store-Keeps, find-Keeps, fetch-Keeps, exists-Keeps, stat-Keeps,
  info-Keeps, set_serializer-Keeps,
}

module _ {V R W S : Type 0} (shm : Shm V R W S) where
  -- One call of an exported function. The system's answers to lock calls may differ from call to
  -- call. In `other` the call is made by another process, on the same shared memory.
  pub data Step : World R W S → World R W S → Type 0 where
    stores :
        {w v : World R W S} (grant : Grant) (key : ZendString) (val : V) (t : ℕ)
        → v ≡ (store shm grant w key val t).1
        → Step w v
    finds :
        {w v : World R W S} (grant : Grant) (key : List ℕ) (t : ℕ)
        → v ≡ (find shm grant w key t).1
        → Step w v
    fetches :
        {w v : World R W S} (grant : Grant) (key : List ℕ) (t : ℕ)
        → v ≡ (fetch shm grant w key t).1
        → Step w v
    tests :
        {w v : World R W S} (grant : Grant) (key : List ℕ)
        → v ≡ (exists shm grant w key).1
        → Step w v
    stats :
        {w v : World R W S} (grant : Grant) (key : List ℕ) → v ≡ (stat shm grant w key).1 → Step w v
    informs :
        {w v : World R W S} (grant : Grant) (limited : Bool)
        → v ≡ (cache_info grant w limited).1
        → Step w v
    serializes :
        {w v : World R W S} (grant : Grant) (name : List ℕ)
        → v ≡ set_serializer shm grant w name
        → Step w v
    other :
        {w v : World R W S} (p : Process)
        → Step (of_cache w.cache p) v
        → Step w (of_cache v.cache w.process)

  pub data Reach (w : World R W S) : World R W S → Type 0 where
    here : Reach w w
    next : {u v : World R W S} → Reach w u → Step u v → Reach w v

  pub Step-Keeps :
      Persists shm → {w v : World R W S} → Step w v → IsSound shm w.cache → Keeps shm w v
  Step-Keeps laws (stores {w} grant key val t e) sound =
      carry shm e (store-Keeps shm laws grant w.cache w.process key val t sound)
  Step-Keeps laws (finds {w} grant key t e) sound =
      carry shm e (find-Keeps shm grant w.cache w.process key t sound)
  Step-Keeps laws (fetches {w} grant key t e) sound =
      carry shm e (fetch-Keeps shm grant w.cache w.process key t sound)
  Step-Keeps laws (tests {w} grant key e) sound =
      carry shm e (exists-Keeps shm grant w.cache w.process key sound)
  Step-Keeps laws (stats {w} grant key e) sound =
      carry shm e (stat-Keeps shm grant w.cache w.process key sound)
  Step-Keeps laws (informs {w} grant limited e) sound =
      carry shm e (info-Keeps shm grant w.cache w.process limited sound)
  Step-Keeps laws (serializes {w} grant name e) sound =
      carry shm e (set_serializer-Keeps shm grant w.cache w.process name sound)
  Step-Keeps laws (other p step) sound =
      let k = Step-Keeps laws step sound in record { sound = k.sound; held = k.held }

  pub Reach-Keeps :
      Persists shm → {w v : World R W S} → Reach w v → IsSound shm w.cache → Keeps shm w v
  Reach-Keeps laws here sound = record { sound = sound; held = λ key f h. h }
  Reach-Keeps laws (next r step) sound =
      let k = Reach-Keeps laws r sound in
      let k' = Step-Keeps laws step k.sound in
      record { sound = k'.sound; held = λ key f h. k'.held key f (k.held key f h) }

  -- If persisting keeps an entry's key and statistics (`Persists`), then in every world that a
  -- sequence of exported operations, by one process or several one after the other, reaches from
  -- a sound world, the cache is sound, and what was held under a key is still held under it with
  -- the same address, key, value, creation time and size.
  pub held-Reach :
      Persists shm
      → {w v : World R W S} → Reach w v
      → IsSound shm w.cache
      → (key : List ℕ) (f : Frozen W) → held_in shm w.cache key ≡ some f
      → IsSound shm v.cache × (held_in shm v.cache key ≡ some f)
  held-Reach laws reach sound key f there =
      let k = Reach-Keeps laws reach sound in (k.sound, k.held key f there)
