-- ===== src/Vmm/Invariant.antt =====
-- The invariant of the page allocator of kernel/VirtualMemoryManager.cpp: the region map, the lists
-- and the items agree with one list of blocks.
mod Defs
mod Replace
pub use Defs.*
pub use Replace.*
