-- ===== src/Sma.antt =====
-- immutable_cache_sma.c and immutable_cache_sma.h, by part.
pub mod Words
pub mod Blocks
pub mod Search
pub mod Allocate
pub mod Deallocate
pub mod Held
pub mod JoinPrev
pub mod JoinNext
pub mod Pushed
pub mod Coalesce
pub mod Way
pub mod Freed
pub mod Reuse
pub mod Distinct
pub mod Links
pub mod Tiles
pub mod Invariant
pub mod Taken
pub mod Split
pub mod Find
pub mod Outcome
pub mod Init
pub mod Heap
pub mod Info
pub mod Setup
mod Examples
