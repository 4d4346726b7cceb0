-- ===== src/Filesys/FreeMap.antt =====
-- filesys/free-map.c. `free_map_allocate` writes the free map by `inode_write_at`, which may call
-- `free_map_allocate` in turn: `depth` bounds how deep these calls nest. Whether `calloc` and `malloc`
-- succeed in `inode_write_at` are the arguments `calloc` and `bounce`.
pub mod Allocate
pub mod Release
pub mod Growing
mod Tests
use project2_group.Base.{
  ℕ, zero, suc, Bool, true, false, Option, none, some, List, Run, ok, panic, fault, out_of_fuel,
  ◌>>=◌, ◌>>◌, assert, ◌==◌, if◌then◌else◌, bytes_of,
}
use project2_group.Klib.Bitmap.{
  Bitmap, bitmap_error, byte_cnt, bitmap_create, bitmap_mark, bitmap_all, bitmap_set_multiple,
  bitmap_scan_and_flip,
}
use project2_group.Filesys.Inode.{Inode}
use project2_group.Filesys.State.{Fs}
use project2_group.Filesys.Write.{Allocator, inode_write_at}

abbrev pub free_map_sector : ℕ
free_map_sector = 0

abbrev pub root_dir_sector : ℕ
root_dir_sector = 1

-- `bitmap_write` of the free map, by `file_write_at` at offset 0.
unfoldable pub bitmap_write : Allocator → (calloc bounce : Bool) → Inode → Fs → Run (Bool × Fs)
bitmap_write alloc calloc bounce file fs = do
  let size = byte_cnt fs.free_map.bit_cnt
  (written, fs') ← inode_write_at alloc calloc bounce file fs (bytes_of fs.free_map.bits) size 0
  ok (written == size, fs')

-- What follows a scan that found `sector`; `fs` has the bits flipped.
unfoldable pub record_allocation :
    Allocator → (calloc bounce : Bool) → ℕ → ℕ → Fs → Option Inode → Run (Option ℕ × Fs)
record_allocation alloc calloc bounce sector cnt fs none = ok (some sector, fs)
record_allocation alloc calloc bounce sector cnt fs (some file) = do
  (success, fs') ← bitmap_write alloc calloc bounce file fs
  if success then ok (some sector, fs') else (do
    map' ← bitmap_set_multiple fs'.free_map sector cnt false
    ok (none, record fs' { free_map = map' }))

-- The sector that is stored through `sectorp`, if the call succeeds.
unfoldable pub free_map_allocate : ℕ → (calloc bounce : Bool) → Allocator
free_map_allocate zero calloc bounce cnt fs = out_of_fuel
free_map_allocate (suc depth) calloc bounce cnt fs =
    let alloc = free_map_allocate depth calloc bounce in
    do
      (sector, map') ← bitmap_scan_and_flip fs.free_map 0 cnt false
      let fs' = record fs { free_map = map' }
      if sector == bitmap_error
          then ok (none, fs')
          else record_allocation alloc calloc bounce sector cnt fs' fs.free_map_file

-- The write that ends `free_map_release`; its result is ignored.
unfoldable pub record_release : Allocator → (calloc bounce : Bool) → Fs → Option Inode → Run Fs
record_release alloc calloc bounce fs none = fault
record_release alloc calloc bounce fs (some file) = do
  (_, fs') ← bitmap_write alloc calloc bounce file fs
  ok fs'

unfoldable pub free_map_release : Allocator → (calloc bounce : Bool) → ℕ → ℕ → Fs → Run Fs
free_map_release alloc calloc bounce sector cnt fs = do
  all ← bitmap_all fs.free_map sector cnt
  assert all
  map' ← bitmap_set_multiple fs.free_map sector cnt false
  record_release alloc calloc bounce (record fs { free_map = map' }) fs.free_map_file

-- `elems` is the storage that `malloc` gives for the map's elements, and what it holds.
unfoldable pub free_map_init : Bool → Option (List ℕ) → Fs → Run Fs
free_map_init mem elems fs = do
  created ← bitmap_create mem elems fs.dev.size
  elim created [
    | none ↦ panic
    | some b ↦ (do
      b' ← bitmap_mark b free_map_sector
      b'' ← bitmap_mark b' root_dir_sector
      ok (record fs { free_map = b'' }))
  ]
