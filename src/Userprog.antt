-- ===== src/Userprog.antt =====
-- User processes: the directory userprog.
pub mod Arguments
pub mod CommandLine
pub mod Descriptors
pub mod Segments
