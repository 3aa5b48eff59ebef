-- ===== src/Vmm/Alloc.antt =====
-- `allocPages` of kernel/VirtualMemoryManager.cpp keeps the invariant.
pub mod Whole
pub mod Split
pub mod Search
pub mod Locate
pub mod Correct
