-- ===== src/Filesys/File.antt =====
-- filesys/file.c: open files, which add a position to an inode. The inode is passed along with the file. Opening,
-- closing and denying writes stand in Filesys/Handle.
use project2_group.Base.{ℕ, ◌+◌, Bool, List, Run, ok, ◌>>=◌}
use project2_group.Devices.Block.{Block}
use project2_group.Filesys.Inode.{Inode, inode_length, inode_read_at}
use project2_group.Filesys.State.{Fs}
use project2_group.Filesys.Write.{Allocator, inode_write_at}

pub record File : Type 0 where
  pub inode : Inode
  pub pos : ℕ
  pub deny_write : Bool

unfoldable pub file_get_inode : File → Inode
file_get_inode file = file.inode

unfoldable pub file_read_at : Bool → File → Block → (size file_ofs : ℕ) → Run (ℕ × List ℕ × Block)
file_read_at bounce file dev size file_ofs = inode_read_at bounce file.inode dev size file_ofs

unfoldable pub file_read : Bool → File → Block → ℕ → Run (ℕ × List ℕ × Block × File)
file_read bounce file dev size = do
  (bytes_read, buffer, dev') ← inode_read_at bounce file.inode dev size file.pos
  ok (bytes_read, buffer, dev', record file { pos = file.pos + bytes_read })

unfoldable pub file_write_at :
    Allocator → (calloc bounce : Bool) → File → Fs → List ℕ → (size file_ofs : ℕ) → Run (ℕ × Fs)
file_write_at alloc calloc bounce file fs buffer size file_ofs =
    inode_write_at alloc calloc bounce file.inode fs buffer size file_ofs

unfoldable pub file_write :
    Allocator → (calloc bounce : Bool) → File → Fs → List ℕ → ℕ → Run (ℕ × Fs × File)
file_write alloc calloc bounce file fs buffer size = do
  (bytes_written, fs') ← inode_write_at alloc calloc bounce file.inode fs buffer size file.pos
  ok (bytes_written, fs', record file { pos = file.pos + bytes_written })

unfoldable pub file_length : File → ℕ
file_length file = inode_length file.inode

unfoldable pub file_seek : File → ℕ → File
file_seek file new_pos = record file { pos = new_pos }

unfoldable pub file_tell : File → ℕ
file_tell file = file.pos
