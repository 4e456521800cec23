-- ===== src/Klibc.antt =====
-- klibc: the kernel's C library.
pub mod Memory
pub mod Strings
mod Tests
