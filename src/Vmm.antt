-- ===== src/Vmm.antt =====
-- kernel/VirtualMemoryManager.cpp
pub mod Pages
pub mod Chain
pub mod Blocks
pub mod Lists
pub mod Invariant
pub mod Alloc
pub mod Free
pub mod Mark
pub mod Tidy
pub mod Good
pub mod Init
pub mod RoundTrip
pub mod Manager
mod Tests
