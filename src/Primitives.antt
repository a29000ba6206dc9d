-- ===== src/Primitives.antt =====
-- immutable_cache_lock.c and immutable_cache_mutex.c: the functions behind the lock macros.
pub mod Posix
pub mod Spin
pub mod Depth
mod Examples
