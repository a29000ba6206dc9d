-- ===== src/Cache.antt =====
-- immutable_cache_cache.c and immutable_cache_cache.h, by part.
pub mod Entry
pub mod Locks
pub mod State
pub mod Slots
pub mod Operations
pub mod Chains
pub mod View
pub mod Insert
pub mod Hit
pub mod Balance
pub mod Release
pub mod Store
pub mod Keeps
pub mod Immutable
pub mod Fetch
pub mod Listing
pub mod Info
pub mod Exclusion
pub mod Agreement
pub mod Create
pub mod Preload
pub mod Examples
