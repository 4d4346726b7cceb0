-- ===== src/Filesys/Inode.antt =====
-- filesys/inode.c and inode.h: inodes on disk and in memory, where a byte of a file lies, and reading.
-- `off_t` offsets and sizes are the nonnegative ones; the sectors of the device are bytes, and the
-- structs on it are arrays of little-endian words.
pub mod Layout
pub mod Read
mod Tests
use project2_group.Base.{
  ℕ, zero, suc, ◌+◌, ◌-◌, ◌*◌, ◌/◌, ◌%◌, ◌^◌, Bool, true, false, List, [], ◌∷◌, ◌++◌, Run, ok,
  fault, out_of_fuel, ◌>>=◌, deref, leb, ltb, ◌==◌, ◌&&◌, if◌then◌else◌, get_elem?, take, drop,
  bytes_of, words_of,
}
use project2_group.Devices.Block.{Block, block_sector_size, block_read}

pub data SectorLoc : Type 0 where
  direct indirect doubly_indirect : SectorLoc

-- `struct inode_disk`, one sector: three words and 125 sector numbers.
pub record InodeDisk : Type 0 where
  pub start : ℕ
  pub length : ℕ
  pub magic : ℕ
  pub sectors : List ℕ

abbrev pub inode_magic : ℕ
inode_magic = 0x494e4f44

-- The bytes of a `struct inode_disk`.
unfoldable pub encode : InodeDisk → List ℕ
encode d = bytes_of (d.start ∷ d.length ∷ d.magic ∷ d.sectors)

-- What `block_read` into a `struct inode_disk` gives.
unfoldable pub inode_of_words : List ℕ → InodeDisk
inode_of_words (s ∷ l ∷ m ∷ ws) = record { start = s; length = l; magic = m; sectors = ws }
inode_of_words _ = record { start = 0; length = 0; magic = 0; sectors = [] }

unfoldable pub decode : List ℕ → InodeDisk
unfolding inode_of_words
decode bytes = inode_of_words (words_of bytes)

-- `struct inode`, less its place in the list of open inodes.
pub record Inode : Type 0 where
  pub sector : ℕ
  pub open_cnt : ℕ
  pub removed : Bool
  pub deny_write_cnt : ℕ
  pub data' : InodeDisk

-- DIV_ROUND_UP (size, BLOCK_SECTOR_SIZE).
abbrev pub bytes_to_sectors : ℕ → ℕ
bytes_to_sectors size = (size + 511) / block_sector_size

-- The sector of byte `pos`, where it was found (the global `location`), and the device, which may
-- have been read for it.
unfoldable pub byte_to_sector : Block → Inode → ℕ → Run (SectorLoc × ℕ × Block)
byte_to_sector dev inode pos =
    let spot = pos / block_sector_size in
    if leb spot 122
    then (do s ← deref (get_elem? inode.data'.sectors spot); ok (direct, s, dev))
    else if leb spot 250
    then (do
      s ← deref (get_elem? inode.data'.sectors 123)
      (bytes, dev') ← block_read dev s
      t ← deref (get_elem? (words_of bytes) (spot - 122))
      ok (indirect, t, dev'))
    else (do
      let first_spot = (spot - 250) / 128
      let second_spot = spot - 250 - 128 * first_spot
      s ← deref (get_elem? inode.data'.sectors 124)
      (_, dev') ← block_read dev s
      s' ← deref (get_elem? inode.data'.sectors first_spot)
      (bytes, dev'') ← block_read dev' s'
      t ← deref (get_elem? (words_of bytes) second_spot)
      ok (doubly_indirect, t, dev''))

abbrev pub inode_length : Inode → ℕ
inode_length inode = inode.data'.length

abbrev pub lesser : ℕ → ℕ → ℕ
lesser a b = if ltb a b then a else b

-- The variables of the loop of `inode_read_at`; `out` is what the caller's buffer holds so far.
pub record ReadState : Type 0 where
  pub dev : Block
  pub out : List ℕ
  pub size : ℕ
  pub offset : ℕ
  pub bytes_read : ℕ

-- What the function returns, with the buffer and the device.
abbrev pub ReadResult : Type 0
ReadResult = ℕ × List ℕ × Block

-- A round of a loop goes on with new variables, or leaves the function with a result.
pub data Round (S A : Type 0) : Type 0 where
  again : S → Round S A
  leave : A → Round S A

-- The end of a round: the chunk goes behind what the buffer holds.
abbrev pub advance : ReadState → Block → List ℕ → ℕ → Round ReadState ReadResult
advance s dev bytes chunk_size = again (record {
  dev = dev;
  out = s.out ++ bytes;
  size = s.size - chunk_size;
  offset = s.offset + chunk_size;
  bytes_read = s.bytes_read + chunk_size;
})

-- The body of the loop. `bounce` says whether `malloc` gives a bounce buffer.
unfoldable pub read_round : Bool → Inode → ReadState → Run (Round ReadState ReadResult)
read_round bounce inode s = do
  (_, sector_idx, dev) ← byte_to_sector s.dev inode s.offset
  let sector_ofs = s.offset % block_sector_size
  let inode_left = inode_length inode - s.offset
  let sector_left = block_sector_size - sector_ofs
  let chunk_size = lesser s.size (lesser inode_left sector_left)
  if leb (inode_length inode) s.offset
      then ok (leave (0, s.out, dev))
      else if chunk_size == 0
      then ok (leave (s.bytes_read, s.out, dev))
      else if (sector_ofs == 0) && (chunk_size == block_sector_size)
      then (do (bytes, dev') ← block_read dev sector_idx; ok (advance s dev' bytes chunk_size))
      else if bounce
      then (do
        (bytes, dev') ← block_read dev sector_idx
        ok (advance s dev' (take chunk_size (drop sector_ofs bytes)) chunk_size))
      else ok (leave (s.bytes_read, s.out, dev))

read_loop : ℕ → Bool → Inode → ReadState → Run ReadResult
read_loop zero bounce inode s = out_of_fuel
read_loop (suc fuel) bounce inode s = if s.size == 0 then ok (s.bytes_read, s.out, s.dev) else (do
  r ← read_round bounce inode s
  elim r [ leave result ↦ ok result | again s' ↦ read_loop fuel bounce inode s' ])

-- Each round but the last reads at least one byte.
unfoldable pub inode_read_at : Bool → Inode → Block → (size offset : ℕ) → Run ReadResult
unfolding read_loop
inode_read_at bounce inode dev size offset =
    read_loop (size + 1) bounce inode
      (record { dev = dev; out = []; size = size; offset = offset; bytes_read = 0 })
