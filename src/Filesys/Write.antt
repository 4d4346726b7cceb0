-- ===== src/Filesys/Write.antt =====
-- `inode_write_at` of filesys/inode.c. It calls `free_map_allocate`, which writes the free map by
-- `inode_write_at`: here that function is an argument, and free-map.c closes the circle.
pub mod Chunk
pub mod Within
pub mod Tests
use project2_group.Base.{
  ℕ, zero, suc, ◌+◌, ◌-◌, ◌*◌, ◌/◌, ◌%◌, ◌^◌, Bool, true, false, Option, none, some, List, [], Run,
  ok, fault, out_of_fuel, ◌>>=◌, leb, ltb, ◌==◌, ◌&&◌, ◌||◌, if◌then◌else◌, take, drop, splice,
  replicate,
}
use project2_group.Devices.Block.{Block, block_sector_size, block_read, block_write}
use project2_group.Filesys.Inode.{Inode, inode_length, byte_to_sector, lesser, Round, again, leave}
use project2_group.Filesys.State.{Fs}

-- `free_map_allocate (cnt, sectorp)`: what it stores through `sectorp` if it succeeds.
abbrev pub Allocator : Type 0
Allocator = ℕ → Fs → Run (Option ℕ × Fs)

-- The variables of the loop.
pub record WriteState : Type 0 where
  pub fs : Fs
  pub size : ℕ
  pub offset : ℕ
  pub bytes_written : ℕ

abbrev pub WriteResult : Type 0
WriteResult = ℕ × Fs

-- `divide_up (size - bytes_written)`, on `int`, as the `size_t` that `free_map_allocate` takes.
unfoldable pub sectors_to_alloc : ℕ → ℕ → ℕ
sectors_to_alloc size written =
    if leb written size
    then (size - written + 511) / 512
    else (2 ^ 32 - (written - size - 511) / 512) % 2 ^ 32

-- The rest of a round at or past the end of the file: `chunk_size` is `inode_left`, which is at most
-- 0, and a negative count goes to `memcpy`.
unfoldable pub empty_chunk : Bool → Inode → WriteState → ℕ → Run (Round WriteState WriteResult)
empty_chunk bounce inode s sector_idx =
    if bounce
    then (do
      (bytes, dev) ← block_read s.fs.dev sector_idx
      dev' ← (if inode_length inode == s.offset then block_write dev sector_idx bytes else fault)
      ok (again (record s { fs = record s.fs { dev = dev' } })))
    else ok (leave (s.bytes_written, s.fs))

-- `free_map_allocate (…, disk_inode->sectors[sector_idx])`. `disk_inode` is zeroed, so the pointer is
-- null if `sector_idx` is an index at all, and a successful call stores through it.
unfoldable pub grow_round :
    Allocator → Bool → Inode → WriteState → ℕ → Run (Round WriteState WriteResult)
grow_round alloc bounce inode s sector_idx =
    if ltb sector_idx 125
    then (do
      (got, fs) ← alloc (sectors_to_alloc s.size s.bytes_written) s.fs
      elim got [
        | some sector ↦ fault
        | none ↦ empty_chunk bounce inode (record s { fs = fs }) sector_idx
      ])
    else fault

-- The end of a round: `bytes` is the new contents of the sector.
abbrev pub store_chunk : WriteState → Block → ℕ → List ℕ → ℕ → Run (Round WriteState WriteResult)
store_chunk s dev sector_idx bytes chunk_size = do
  dev' ← block_write dev sector_idx bytes
  ok (
      again (record {
        fs = record s.fs { dev = dev' };
        size = s.size - chunk_size;
        offset = s.offset + chunk_size;
        bytes_written = s.bytes_written + chunk_size;
      }))

-- The bounce buffer before the chunk is copied into it.
abbrev pub fill_bounce : Block → ℕ → Bool → Run (List ℕ × Block)
fill_bounce dev sector_idx keep =
    if keep then block_read dev sector_idx else ok (replicate 512 0, dev)

unfoldable pub write_chunk :
    Bool
    → List ℕ
    → WriteState
    → ℕ
    → (sector_ofs sector_left chunk_size : ℕ) → Run (Round WriteState WriteResult)
write_chunk bounce buffer s sector_idx sector_ofs sector_left chunk_size =
    let chunk = take chunk_size (drop s.bytes_written buffer) in
    if (sector_ofs == 0) && (chunk_size == block_sector_size)
    then store_chunk s s.fs.dev sector_idx chunk chunk_size
    else if bounce
    then (do
      (old, dev) ← fill_bounce s.fs.dev sector_idx (ltb 0 sector_ofs || ltb chunk_size sector_left)
      store_chunk s dev sector_idx (splice old sector_ofs chunk) chunk_size)
    else ok (leave (s.bytes_written, s.fs))

-- The body of the loop.
unfoldable pub write_round :
    Allocator → Bool → Inode → List ℕ → WriteState → Run (Round WriteState WriteResult)
write_round alloc bounce inode buffer s = do
  (_, sector_idx, dev) ← byte_to_sector s.fs.dev inode s.offset
  let s' = record s { fs = record s.fs { dev = dev } }
  let sector_ofs = s.offset % block_sector_size
  let sector_left = block_sector_size - sector_ofs
  let chunk_size = lesser s.size (lesser (inode_length inode - s.offset) sector_left)
  if leb (inode_length inode) s.offset
      then grow_round alloc bounce inode s' sector_idx
      else write_chunk bounce buffer s' sector_idx sector_ofs sector_left chunk_size

unfoldable pub write_loop : ℕ → Allocator → Bool → Inode → List ℕ → WriteState → Run WriteResult
write_loop zero alloc bounce inode buffer s = out_of_fuel
write_loop (suc fuel) alloc bounce inode buffer s =
    if s.size == 0 then ok (s.bytes_written, s.fs) else (do
      r ← write_round alloc bounce inode buffer s
      elim r [ leave result ↦ ok result | again s' ↦ write_loop fuel alloc bounce inode buffer s' ])

-- `calloc` and `bounce` say whether `calloc` gives a `disk_inode`, which is not checked, and `malloc`
-- a bounce buffer.
unfoldable pub inode_write_at :
    Allocator → (calloc bounce : Bool) → Inode → Fs → List ℕ → (size offset : ℕ) → Run WriteResult
unfolding write_loop
inode_write_at alloc calloc bounce inode fs buffer size offset =
    if calloc
    then (if inode.deny_write_cnt == 0
        then write_loop (size + 1) alloc bounce inode buffer
            (record { fs = fs; size = size; offset = offset; bytes_written = 0 })
        else ok (0, fs))
    else fault
