-- ===== src/Paging.antt =====
-- The page tables: kernel/paging.cpp.
pub mod Walk
pub mod Owned
pub mod Opening
pub mod Stable
pub mod Spans
pub mod Whole
pub mod Range
pub mod Lookup
pub mod Effect
pub mod Mapping
pub mod Refine
pub mod Returns
pub mod Calls
pub mod Ranges
pub mod Release
pub mod Fault
pub mod Supply
pub mod Outcome
mod Tests
