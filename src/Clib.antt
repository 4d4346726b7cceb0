-- ===== src/Clib.antt =====
-- The C library that the kernel and its programs share: lib.
pub mod Text
pub mod Search
pub mod Sorting
pub mod Arithmetic
pub mod Tokens
pub mod Move
