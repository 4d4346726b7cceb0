-- ===== src/Filesys/Write/Tests.antt =====
-- The theorems about `inode_write_at` at the file of `Sample`, with an allocator that always gives 7.
use project2_group.Base.{ℕ, ◌≡◌, refl, true, List, [], ◌∷◌, ok, some, arith}
use project2_group.Devices.Block.{Block}
use project2_group.Filesys.Inode.{inode_read_at}
use project2_group.Filesys.State.{Fs}
use project2_group.Filesys.Sample.{blank, blank-IsDisk, letter, file_of-IsDirect, in_use}
use project2_group.Filesys.Write.{Allocator, inode_write_at}
use project2_group.Filesys.Write.Chunk.{IsWritten}
use project2_group.Filesys.Write.Within.{inode_write_at_within, read-write}

abbrev lucky : Allocator
lucky n fs = ok (some 7, fs)

abbrev word : List ℕ
word = 65 ∷ 66 ∷ 67 ∷ 68 ∷ []

inode_write_at_within_example :
    (dev : Block) × (inode_write_at lucky true true letter in_use word 4 510
      ≡ ok (4, record in_use { dev = dev }))
    × IsWritten letter word 510 510 514 blank dev
inode_write_at_within_example =
    inode_write_at_within lucky letter in_use word 4 510 blank-IsDisk
      (file_of-IsDirect 600 (omega arith)) refl (omega arith) (omega arith)

read-write_example :
    (fs' : Fs) × (r : ℕ) × (inode_write_at lucky true true letter in_use word 4 510 ≡ ok (4, fs'))
    × (inode_read_at true letter fs'.dev 4 510 ≡ ok (4, word, record fs'.dev { read_cnt = r }))
read-write_example =
    read-write lucky letter in_use word 4 510 blank-IsDisk (file_of-IsDirect 600 (omega arith)) refl
      (omega arith) (omega arith)
