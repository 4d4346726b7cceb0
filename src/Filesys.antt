-- ===== src/Filesys.antt =====
-- The file system: filesys. `Fs` is its state: the device, the free map in memory, and the file that
-- the free map is kept in (null until `free_map_open` or `free_map_create`).
pub mod Inode
pub mod State
pub mod Write
pub mod FreeMap
pub mod Sample
pub mod Open
pub mod File
pub mod Handle
