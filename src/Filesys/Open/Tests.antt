-- ===== src/Filesys/Open/Tests.antt =====
-- Runs on a table with one open inode.
use project2_group.Base.{ℕ, ◌<◌, ◌≡◌, refl, true, none, some, [], ◌∷◌, ok, arith}
use project2_group.Filesys.Inode.{Inode}
use project2_group.Filesys.FreeMap.{free_map_allocate}
use project2_group.Filesys.Sample.{blank, file_of}
use project2_group.Filesys.Open.{
  Table, at, store, inode_open, inode_reopen, inode_close, inode_deny_write, inode_allow_write,
  find_sector,
}
use project2_group.Filesys.Open.Lookup.{IsTable}
use project2_group.Filesys.Open.Closing.{inode_close-inode_open, inode_allow_write-inode_deny_write}
use project2_group.Filesys.Open.Opening.{inode_open-IsTable}

-- The inode of sector 1, which has one opener, is at 100.
abbrev opened : Table
opened = record {
  fs = record {
    dev = blank;
    free_map = record { bit_cnt = 8; bits = 15 ∷ [] };
    free_map_file = none;
  };
  open_inodes = (100, file_of 600) ∷ [];
}

opened-IsTable : IsTable opened.open_inodes
opened-IsTable = (omega arith, omega arith, tt, tt, tt)

-- A second opener gets the same inode, whatever `malloc` would give.
reopen_test :
    inode_open none 1 opened
    ≡ ok (
      some 100,
      record opened { open_inodes = (100, record (file_of 600) { open_cnt = 2 }) ∷ [] },
    )
unfolding inode_open inode_reopen find_sector at store
reopen_test = refl

inode_close-inode_open_example :
    (q : ℕ) × (t' : Table) × (r : ℕ) × (inode_open (some 200) 5 opened ≡ ok (some q, t'))
    × (inode_close (free_map_allocate 1 true true) true true q t'
        ≡ ok (record opened { fs = record opened.fs { dev = record blank { read_cnt = r } } }))
inode_close-inode_open_example =
    inode_close-inode_open (free_map_allocate 1 true true) true true 200 5 opened opened-IsTable
      (omega arith)

inode_allow_write-inode_deny_write_test :
    (t' : Table) × (i' : Inode) × (inode_deny_write 100 opened ≡ ok t')
    × (at 100 t'.open_inodes ≡ some i')
    × (0 < i'.deny_write_cnt)
    × (inode_allow_write 100 t' ≡ ok opened)
unfolding at
inode_allow_write-inode_deny_write_test =
    inode_allow_write-inode_deny_write 100 opened (file_of 600) refl (omega arith)

inode_open-IsTable_example :
    (q : ℕ) × (t' : Table) × (i : Inode) × (inode_open (some 200) 5 opened ≡ ok (some q, t'))
    × (at q t'.open_inodes ≡ some i)
    × (i.sector ≡ 5)
    × IsTable t'.open_inodes
inode_open-IsTable_example =
    inode_open-IsTable 200 5 opened opened-IsTable ((λ e. omega (arith, e)), tt) (omega arith)
