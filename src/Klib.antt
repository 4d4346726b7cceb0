-- ===== src/Klib.antt =====
-- The kernel's library: lib/kernel.
pub mod Bitmap
pub mod OrderedList
pub mod Sequence
pub mod Hash
pub mod Links
