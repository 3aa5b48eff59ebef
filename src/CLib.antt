-- ===== src/CLib.antt =====
-- The C library of the kernel: kernel/CLibImpl.cpp with the templates of include/kclib.h.
pub mod Symbol
pub mod Memory
pub mod Number
pub mod Text
mod Tests
