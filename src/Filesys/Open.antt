-- ===== src/Filesys/Open.antt =====
-- filesys/inode.c: the list of open inodes, and opening, closing, removing and denying writes. A
-- `struct inode *` is a number; the list holds each open inode with its address. Access through an
-- address that is not in the list, as after the last close, is a fault.
pub mod Lookup
pub mod Closing
pub mod Opening
mod Tests
use project2_group.Base.{
  ℕ, ◌+◌, ◌-◌, Bool, true, false, Option, none, some, List, [], ◌∷◌, Run, ok, ◌>>=◌, ◌>>◌, assert,
  deref, leb, ltb, ◌==◌, if◌then◌else◌,
}
use project2_group.Devices.Block.{block_read}
use project2_group.Filesys.Inode.{Inode, decode, bytes_to_sectors, inode_length}
use project2_group.Filesys.State.{Fs}
use project2_group.Filesys.Write.{Allocator}
use project2_group.Filesys.FreeMap.{free_map_release}

pub record Table : Type 0 where
  pub fs : Fs
  pub open_inodes : List (ℕ × Inode)

-- The loop of `inode_open`.
unfoldable pub find_sector : ℕ → List (ℕ × Inode) → Option ℕ
find_sector sector [] = none
find_sector sector ((p, i) ∷ l) = if i.sector == sector then some p else find_sector sector l

-- What the address points to.
unfoldable pub at : ℕ → List (ℕ × Inode) → Option Inode
at q [] = none
at q ((p, i) ∷ l) = if p == q then some i else at q l

unfoldable pub store : ℕ → Inode → List (ℕ × Inode) → List (ℕ × Inode)
store q x [] = []
store q x ((p, i) ∷ l) = if p == q then (p, x) ∷ l else (p, i) ∷ store q x l

-- `list_remove` of the element in an inode.
unfoldable pub unlink : ℕ → List (ℕ × Inode) → List (ℕ × Inode)
unlink q [] = []
unlink q ((p, i) ∷ l) = if p == q then l else (p, i) ∷ unlink q l

unfoldable pub inode_reopen : ℕ → Table → Run Table
inode_reopen q t = do
  i ← deref (at q t.open_inodes)
  ok (record t { open_inodes = store q (record i { open_cnt = i.open_cnt + 1 }) t.open_inodes })

-- A `struct inode` with one opener and what the sector holds.
abbrev pub initialized : ℕ → List ℕ → Inode
initialized sector bytes = record {
  sector = sector;
  open_cnt = 1;
  removed = false;
  deny_write_cnt = 0;
  data' = decode bytes;
}

-- The inode is not open yet; `mem` is the address that `malloc` gives.
unfoldable pub open_new : Option ℕ → ℕ → Table → Run (Option ℕ × Table)
open_new none sector t = ok (none, t)
open_new (some p) sector t = do
  (bytes, dev) ← block_read t.fs.dev sector
  ok (
    some p,
    record {
      fs = record t.fs { dev = dev };
      open_inodes = (p, initialized sector bytes) ∷ t.open_inodes;
    },
  )

unfoldable pub inode_open : Option ℕ → ℕ → Table → Run (Option ℕ × Table)
inode_open mem sector t = elim (find_sector sector t.open_inodes) [
  | none ↦ open_new mem sector t
  | some p ↦ (do t' ← inode_reopen p t; ok (some p, t'))
]

-- The blocks of a removed inode, released when it is closed by its last opener.
unfoldable pub release_blocks : Allocator → (calloc bounce : Bool) → Inode → Fs → Run Fs
release_blocks alloc calloc bounce i fs =
    if i.removed
    then (do
      fs' ← free_map_release alloc calloc bounce i.sector 1 fs
      free_map_release alloc calloc bounce i.data'.start (bytes_to_sectors (inode_length i)) fs')
    else ok fs

-- An open inode has at least one opener, so that `--open_cnt` is 0 when the count was 1.
unfoldable pub inode_close : Allocator → (calloc bounce : Bool) → ℕ → Table → Run Table
inode_close alloc calloc bounce q t = do
  i ← deref (at q t.open_inodes)
  if i.open_cnt == 1
      then (do
        fs ← release_blocks alloc calloc bounce i t.fs
        ok (record { fs = fs; open_inodes = unlink q t.open_inodes }))
      else ok (record t {
        open_inodes = store q (record i { open_cnt = i.open_cnt - 1 }) t.open_inodes;
      })

unfoldable pub inode_remove : ℕ → Table → Run Table
inode_remove q t = do
  i ← deref (at q t.open_inodes)
  ok (record t {
    open_inodes =
        store q (record i { removed = true; data' = record i.data' { length = 0 } }) t.open_inodes;
  })

unfoldable pub inode_deny_write : ℕ → Table → Run Table
inode_deny_write q t = do
  i ← deref (at q t.open_inodes)
  assert (leb (i.deny_write_cnt + 1) i.open_cnt)
  ok (record t {
    open_inodes = store q (record i { deny_write_cnt = i.deny_write_cnt + 1 }) t.open_inodes;
  })

unfoldable pub inode_allow_write : ℕ → Table → Run Table
inode_allow_write q t = do
  i ← deref (at q t.open_inodes)
  assert (ltb 0 i.deny_write_cnt)
  assert (leb i.deny_write_cnt i.open_cnt)
  ok (record t {
    open_inodes = store q (record i { deny_write_cnt = i.deny_write_cnt - 1 }) t.open_inodes;
  })

unfoldable pub inode_get_inumber : Inode → ℕ
inode_get_inumber inode = inode.sector
