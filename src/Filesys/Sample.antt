-- ===== src/Filesys/Sample.antt =====
-- Test data for the file system: a device of eight sectors, files in sectors 2 and 3 of it, and a
-- free map with sectors 0 to 3 in use that is kept in such a file.
use project2_group.Base.{
  ℕ, zero, suc, ◌*◌, ◌<◌, ◌≡◌, refl, false, [], ◌∷◌, arith, replicate, length, some,
}
use project2_group.Klib.Bitmap.View.{IsValid}
use project2_group.Devices.Block.{Block, IsDisk, filesys}
use project2_group.Filesys.Inode.{Inode, inode_magic}
use project2_group.Filesys.Inode.Layout.{IsDirect, sector_at}
use project2_group.Filesys.State.{Fs}

abbrev pub blank : Block
blank = record {
  type = filesys;
  size = 8;
  store = λ s. replicate 512 s;
  read_cnt = 0;
  write_cnt = 0;
}

pub blank-IsDisk : IsDisk blank
blank-IsDisk = record { full = λ s. refl; ours = refl }

abbrev pub file_of : ℕ → Inode
file_of length = record {
  sector = 1;
  open_cnt = 1;
  removed = false;
  deny_write_cnt = 0;
  data' = record {
    start = 0;
    length = length;
    magic = inode_magic;
    sectors = 2 ∷ 3 ∷ replicate 123 0;
  };
}

abbrev pub letter : Inode
letter = file_of 600

pub file_of-IsDirect : (n : ℕ) → n < 1025 → IsDirect 8 (file_of n)
file_of-IsDirect n h = record {
  pointers = refl;
  short = omega arith;
  placed = placed;
  apart = apart;
}
  where
    placed : (i : ℕ) → i * 512 < n → sector_at (file_of n) i < 8
    placed zero k = omega arith
    placed (suc zero) k = omega arith
    placed (suc (suc i)) k = absurd (omega arith)

    apart :
        (i j : ℕ)
        → i * 512 < n
        → j * 512 < n
        → sector_at (file_of n) i ≡ sector_at (file_of n) j
        → i ≡ j
    apart zero zero k k' e = refl
    apart zero (suc zero) k k' e = omega arith
    apart (suc zero) zero k k' e = omega arith
    apart (suc zero) (suc zero) k k' e = refl
    apart (suc (suc i)) j k k' e = absurd (omega arith)
    apart zero (suc (suc j)) k k' e = absurd (omega arith)
    apart (suc zero) (suc (suc j)) k k' e = absurd (omega arith)

abbrev pub map_file : Inode
map_file = file_of 4

abbrev pub in_use : Fs
in_use = record {
  dev = blank;
  free_map = record { bit_cnt = 8; bits = 15 ∷ [] };
  free_map_file = some map_file;
}

pub in_use-IsValid : IsValid in_use.free_map
in_use-IsValid = record { elems = refl; small = omega arith }
