-- ===== src/Threads.antt =====
-- Kernel threads: the directory threads.
pub mod Scheduler
pub mod Synch
pub mod Sample
pub mod Current
pub mod Palloc
