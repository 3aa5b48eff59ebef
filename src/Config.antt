-- ===== src/Config.antt =====
-- The configuration of the boot loader: uefi/config.cpp.
pub mod Param
pub mod Parser
pub mod Total
pub mod Lines
pub mod Fields
pub mod RoundTrip
pub mod Names
mod Tests
