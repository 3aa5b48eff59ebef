-- ===== src/Vmm/Free.antt =====
-- `freePages` of kernel/VirtualMemoryManager.cpp keeps the invariant, step by step.
pub mod Before
pub mod Spec
pub mod Steps
pub mod After
pub mod Release
pub mod Correct
pub mod Ignored
