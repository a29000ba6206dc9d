-- ===== src/Primitives/Posix.antt =====
-- The native read-write locks and the pthread mutexes of immutable_cache_lock.c and
-- immutable_cache_mutex.c, and its advisory locks on a file.
use immutable_cache_pecl.Prelude.{
  ℕ, ◌+◌, ◌-◌, Bool, true, false, ◌&&◌, not, List, [], ◌∷◌, Option, none, some, ◌==◌, if◌then◌else◌,
}
use immutable_cache_pecl.Prelude.Int.{ℤ, pos, negsuc}
use immutable_cache_pecl.Cache.Locks.{Lock, Grant, release_from}

-- The answers of the calls that set up the attributes of all locks.
pub record Attributes : Type 0 where
  pub init_ok : Bool
  pub setpshared_ok : Bool

-- `immutable_cache_lock_init` and `immutable_cache_mutex_init`: the result, and the flag of the name
-- `..._ready` afterwards, which is set before the calls.
unfoldable pub lock_init : Attributes → Bool → Bool × Bool
lock_init a ready =
    if ready
    then (true, ready)
    else if not a.init_ok
    then (false, true)
    else if not a.setpshared_ok
    then (false, true)
    else (true, true)

-- `immutable_cache_lock_cleanup` and `immutable_cache_mutex_cleanup`: whether the attributes are
-- destroyed, and the flag afterwards
unfoldable pub lock_cleanup : Bool → Bool × Bool
lock_cleanup ready = if not ready then (false, ready) else (true, false)

-- What one process holds, and how often it has blocked PHP's interruptions without unblocking them.
pub record Holding : Type 0 where
  pub held : List Lock
  pub blocked : ℕ

abbrev pub block_interruptions : Holding → Holding
block_interruptions p = record p { blocked = p.blocked + 1 }

abbrev pub unblock_interruptions : Holding → Holding
unblock_interruptions p = record p { blocked = p.blocked - 1 }

-- `immutable_cache_lock_wlock` and `immutable_cache_lock_rlock` over an implementation that answers
-- as `grant` does
unfoldable pub lock_acquire : Grant → Lock → Holding → Bool × Holding
lock_acquire grant l p =
    let p₁ = block_interruptions p in
    if grant l p₁.held
    then (true, record p₁ { held = l ∷ p₁.held })
    else (false, unblock_interruptions p₁)

-- The macros WUNLOCK and RUNLOCK.
unfoldable pub lock_release : Lock → Holding → Holding
lock_release l p = unblock_interruptions (record p { held = release_from l p.held })

-- `immutable_cache_mutex_lock`
unfoldable pub mutex_lock : Bool → Holding → Bool × Holding
mutex_lock granted p =
    let p₁ = block_interruptions p in
    if granted then (true, p₁) else (false, unblock_interruptions p₁)

-- `immutable_cache_mutex_unlock`
unfoldable pub mutex_unlock : Holding → Bool × Holding
mutex_unlock p = (true, unblock_interruptions p)

-- What a call of `fcntl` returns, and `errno` after it.
pub record Answer : Type 0 where
  pub ret : ℤ
  pub errno : ℕ

abbrev pub is_negative : ℤ → Bool
is_negative (pos n) = false
is_negative (negsuc n) = true

-- `immutable_cache_fcntl_call` over the answers to its calls, `eintr` being the number EINTR; `none`
-- means that all the given answers ask for another call.
unfoldable pub fcntl_call : ℕ → List Answer → Option ℤ
fcntl_call eintr [] = none
fcntl_call eintr (a ∷ as') =
    let rest = fcntl_call eintr as' in
    if is_negative a.ret && a.errno == eintr then rest else some a.ret

-- `immutable_cache_lock_wlock_impl` and `immutable_cache_lock_rlock_impl` with such locks: what the
-- call returns is not looked at.
unfoldable pub fcntl_lock : ℕ → List Answer → Option Bool
unfolding fcntl_call
fcntl_lock eintr answers = elim (fcntl_call eintr answers) [ none ↦ none | some ret ↦ some true ]
