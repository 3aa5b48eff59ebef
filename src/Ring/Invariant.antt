-- ===== src/Ring/Invariant.antt =====
-- What holds of the ring between any two atomic steps of its threads.
mod Defs
mod Push
mod Pop
mod Values
mod Reach
pub use Defs.*
pub use Reach.*
