-- ===== src/Vmm/Chain.antt =====
-- The doubly linked lists of free regions. The head of a list may keep a stale `m_prev`, since
-- `deleteFreeRegion` does not reset it; every other item points back to the one before it.
mod Defs
mod Unlink
pub use Defs.*
unfoldable pub use Unlink.*
