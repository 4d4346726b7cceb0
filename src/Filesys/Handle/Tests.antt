-- ===== src/Filesys/Handle/Tests.antt =====
-- Files on a table with one open inode.
use project2_group.Base.{ℕ, ◌<◌, ◌≡◌, refl, true, false, none, some, [], ◌∷◌, ok, arith}
use project2_group.Filesys.Inode.{Inode}
use project2_group.Filesys.FreeMap.{free_map_allocate}
use project2_group.Filesys.Sample.{blank, file_of}
use project2_group.Filesys.Open.{Table, at, store, inode_open, inode_reopen, inode_close}
use project2_group.Filesys.Handle.{
  OpenFile, new_file, file_open, file_reopen, file_deny_write, file_close,
}
use project2_group.Filesys.Handle.Running.{file_close-file_open}

-- The inode of sector 1, which has one opener, is at 100.
abbrev one_inode : Table
one_inode = record {
  fs = record {
    dev = blank;
    free_map = record { bit_cnt = 8; bits = 15 ∷ [] };
    free_map_file = none;
  };
  open_inodes = (100, file_of 600) ∷ [];
}

-- A reopened file that gets no memory closes its inode again.
file_reopen_test :
    file_reopen (free_map_allocate 1 true true) true true false (new_file 100) one_inode
    ≡ ok (none, one_inode)
unfolding file_reopen file_open inode_reopen inode_close at store
file_reopen_test = refl

file_close-file_open_example :
    (q : ℕ) × (t₁ : Table) × (f : OpenFile) × (t₂ : Table) × (r : ℕ) × (inode_open
        (some 200)
        1
        one_inode
      ≡ ok (some q, t₁))
    × (file_open (free_map_allocate 1 true true) true true true (some q) t₁
        ≡ ok (some (new_file q), t₁))
    × (file_deny_write (new_file q) t₁ ≡ ok (f, t₂))
    × ((i : Inode) × (at f.inode t₂.open_inodes ≡ some i) × (0 < i.deny_write_cnt))
    × (file_close (free_map_allocate 1 true true) true true (some f) t₂
        ≡ ok
            (record one_inode { fs = record one_inode.fs { dev = record blank { read_cnt = r } } }))
file_close-file_open_example =
    file_close-file_open (free_map_allocate 1 true true) true true 200 1 one_inode
      (omega arith, omega arith, tt, tt, tt) (omega arith)
