-- ===== src/Filesys/State.antt =====
-- The state that the functions of filesys share: `fs_device`, and the two statics of free-map.c.
use project2_group.Base.{Option}
use project2_group.Klib.Bitmap.{Bitmap}
use project2_group.Devices.Block.{Block}
use project2_group.Filesys.Inode.{Inode}

pub record Fs : Type 0 where
  pub dev : Block
  pub free_map : Bitmap
  pub free_map_file : Option Inode
