-- ===== src/Persist.antt =====
-- immutable_cache_persist.c, by part.
pub mod Value
pub mod Memo
pub mod Calc
pub mod Copy
pub mod Equations
pub mod Tables
pub mod Agreement
pub mod Steps
pub mod TableSteps
pub mod Sizes
pub mod Mode
pub mod Prepared
pub mod Reach
pub mod Contents
pub mod CopiedSlots
pub mod CopiedTables
pub mod Arrays
pub mod Sealed
pub mod Sealing
pub mod Roundtrip
pub mod Slots
pub mod UsedSlots
pub mod Immutable
pub mod Frozen
pub mod Refusals
mod Examples
pub mod Entries
