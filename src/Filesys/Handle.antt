-- ===== src/Filesys/Handle.antt =====
-- filesys/file.c: opening and closing files, and denying writes, over the table of open inodes. Here a file holds
-- the address of its inode, and a null pointer is `none`. Freeing a file's memory is left out.
pub mod Running
mod Tests
use project2_group.Base.{ℕ, Bool, true, false, Option, none, some, Run, ok, ◌>>=◌, if◌then◌else◌}
use project2_group.Filesys.Write.{Allocator}
use project2_group.Filesys.Open.{
  Table, inode_reopen, inode_close, inode_deny_write, inode_allow_write,
}

pub record OpenFile : Type 0 where
  pub inode : ℕ
  pub pos : ℕ
  pub deny_write : Bool

-- A file at its start, with writes allowed.
abbrev pub new_file : ℕ → OpenFile
new_file inode = record { inode = inode; pos = 0; deny_write = false }

module _ (alloc : Allocator) (calloc bounce : Bool) where
  -- `memory` is whether `calloc` gives memory for the file. Closing a null inode does nothing.
  unfoldable pub file_open : (memory : Bool) → Option ℕ → Table → Run (Option OpenFile × Table)
  file_open memory none t = ok (none, t)
  file_open memory (some inode) t =
      if memory
      then ok (some (new_file inode), t)
      else (do t' ← inode_close alloc calloc bounce inode t; ok (none, t'))

  unfoldable pub file_reopen : (memory : Bool) → OpenFile → Table → Run (Option OpenFile × Table)
  file_reopen memory file t = do
    t' ← inode_reopen file.inode t
    file_open memory (some file.inode) t'

unfoldable pub file_deny_write : OpenFile → Table → Run (OpenFile × Table)
file_deny_write file t =
    if file.deny_write
    then ok (file, t)
    else (do t' ← inode_deny_write file.inode t; ok (record file { deny_write = true }, t'))

unfoldable pub file_allow_write : OpenFile → Table → Run (OpenFile × Table)
file_allow_write file t =
    if file.deny_write
    then (do t' ← inode_allow_write file.inode t; ok (record file { deny_write = false }, t'))
    else ok (file, t)

unfoldable pub file_close : Allocator → (calloc bounce : Bool) → Option OpenFile → Table → Run Table
file_close alloc calloc bounce none t = ok t
file_close alloc calloc bounce (some file) t = do
  (file', t') ← file_allow_write file t
  inode_close alloc calloc bounce file'.inode t'
