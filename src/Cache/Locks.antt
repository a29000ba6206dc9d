-- ===== src/Cache/Locks.antt =====
-- The lock calls of immutable_cache_cache.h and of immutable_cache_sma.c, as one process makes them.
-- `grant` is the operating system's answer to a lock call, which may fail; it may depend on the
-- lock and on what the process holds.
use immutable_cache_pecl.Prelude.{ℕ, ◌%◌, Bool, true, false, List, [], ◌∷◌, ◌==◌, if◌then◌else◌}

-- The lock of the last segment, and the sixteen locks beside it, each for writing or reading.
pub data Lock : Type 0 where
  sma_write sma_read : Lock
  fine_write fine_read : ℕ → Lock

abbrev pub fine_grained_lock_count : ℕ
fine_grained_lock_count = 16

-- `entry_level` and `protect_memory` are the globals of that name; `writable` says whether the
-- process may write to the segments; `held` lists the locks of the process, the last one first.
pub record Process : Type 0 where
  pub entry_level : ℕ
  pub protect_memory : Bool
  pub writable : Bool
  pub held : List Lock

abbrev pub Grant : Type 0
Grant = Lock → List Lock → Bool

-- `key_hash & (16 - 1)` in `immutable_cache_sma_lookup_fine_grained_lock`.
unfoldable pub lookup_fine_grained_lock : ℕ → ℕ
lookup_fine_grained_lock key_hash = key_hash % fine_grained_lock_count

abbrev pub same_lock : Lock → Lock → Bool
same_lock sma_write sma_write = true
same_lock sma_read sma_read = true
same_lock (fine_write i) (fine_write j) = i == j
same_lock (fine_read i) (fine_read j) = i == j
same_lock _ _ = false

abbrev pub release_from : Lock → List Lock → List Lock
release_from l [] = []
release_from l (x ∷ xs) = if same_lock l x then xs else x ∷ release_from l xs

-- `RLOCK` and `WLOCK`
abbrev pub acquire : Grant → Lock → Process → Bool × Process
acquire grant l p = if grant l p.held then (true, record p { held = l ∷ p.held }) else (false, p)

-- `RUNLOCK` and `WUNLOCK`
abbrev pub release : Lock → Process → Process
release l p = record p { held = release_from l p.held }

-- `immutable_cache_sma_protect_memory` does nothing unless `protect_memory` is set.
abbrev pub protect : Bool → Process → Process
protect on p = if p.protect_memory then record p { writable = if on then false else true } else p

unfoldable pub sma_lock : Grant → Process → Bool × Process
sma_lock grant p =
    let (granted, p') = acquire grant sma_write p in
    if granted then (true, protect false p') else (false, p')

unfoldable pub sma_unlock : Process → Process
sma_unlock p = release sma_write (protect true p)

unfoldable pub sma_rlock : Grant → Process → Bool × Process
sma_rlock grant p = acquire grant sma_read p

unfoldable pub sma_runlock : Process → Process
sma_runlock p = release sma_read p

-- `immutable_cache_cache_wlock`: the lock of the segment, then that of the key.
unfoldable pub wlock : Grant → ℕ → Process → Bool × Process
unfolding sma_lock sma_unlock lookup_fine_grained_lock
wlock grant h p =
    if p.entry_level == 0
    then (let (locked, p₁) = sma_lock grant p in
        if locked
        then (let (fine, p₂) = acquire grant (fine_write (lookup_fine_grained_lock h)) p₁ in
            if fine then (true, p₂) else (false, sma_unlock p₂))
        else (false, p₁))
    else (true, p)

unfoldable pub wunlock : ℕ → Process → Process
unfolding sma_unlock lookup_fine_grained_lock
wunlock h p =
    if p.entry_level == 0
    then sma_unlock (release (fine_write (lookup_fine_grained_lock h)) p)
    else p

unfoldable pub rlock : Grant → ℕ → Process → Bool × Process
unfolding lookup_fine_grained_lock
rlock grant h p =
    if p.entry_level == 0
    then acquire grant (fine_read (lookup_fine_grained_lock h)) p
    else (true, p)

unfoldable pub runlock : ℕ → Process → Process
unfolding lookup_fine_grained_lock
runlock h p = if p.entry_level == 0 then release (fine_read (lookup_fine_grained_lock h)) p else p

unfoldable pub rlock_global : Grant → Process → Bool × Process
unfolding sma_rlock
rlock_global grant p = if p.entry_level == 0 then sma_rlock grant p else (true, p)

unfoldable pub runlock_global : Process → Process
unfolding sma_runlock
runlock_global p = if p.entry_level == 0 then sma_runlock p else p
