-- ===== src/Vmm/Lists.antt =====
-- The free lists and the pool of released items, as they stand between two operations of the page
-- allocator of kernel/VirtualMemoryManager.cpp.
mod Defs
mod Delete
mod Add
mod Link
pub use Defs.*
pub use Delete.*
pub use Add.*
pub use Link.*
