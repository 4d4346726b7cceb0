-- ===== src/Filesys/Inode/Tests.antt =====
-- A device of eight sectors, a file of 600 bytes in sectors 2 and 3, and reads of it.
use project2_group.Base.{ℕ, ◌≡◌, refl, true, [], ◌∷◌, ok, arith, slice}
use project2_group.Devices.Block.{block_read}
use project2_group.Filesys.Inode.{inode_read_at, read_round, byte_to_sector}
use project2_group.Filesys.Inode.Layout.{byte_at}
use project2_group.Filesys.Sample.{blank, blank-IsDisk, letter, file_of-IsDirect}
use project2_group.Filesys.Inode.Read.{inode_read_at_within, inode_read_at_past_end}

-- Bytes 510 to 513 lie on both sides of a sector's end.
read_across :
    inode_read_at true letter blank 4 510
    ≡ ok (4, 2 ∷ 2 ∷ 3 ∷ 3 ∷ [], record blank { read_cnt = 2 })
unfolding inode_read_at read_round byte_to_sector block_read
read_across = refl

inode_read_at_within_example :
    (r : ℕ) × (inode_read_at true letter blank 4 510
      ≡ ok (4, slice (byte_at blank.store letter) 510 4, record blank { read_cnt = r }))
inode_read_at_within_example =
    inode_read_at_within letter blank 4 510 blank-IsDisk (file_of-IsDirect 600 (omega arith))
      (omega arith)

inode_read_at_past_end_example :
    (r : ℕ) × (inode_read_at true letter blank 20 590
      ≡ ok (0, slice (byte_at blank.store letter) 590 10, record blank { read_cnt = r }))
inode_read_at_past_end_example =
    inode_read_at_past_end letter blank 20 590 blank-IsDisk (file_of-IsDirect 600 (omega arith))
      (omega arith) (omega arith) (omega arith)
