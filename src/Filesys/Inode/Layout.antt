-- ===== src/Filesys/Inode/Layout.antt =====
-- Files that lie in the 123 direct sectors of their inode: where each byte is.
use project2_group.Base.{
  ℕ, ◌*◌, ◌/◌, ◌%◌, ◌≤◌, ◌<◌, ◌≡◌, List, ok, le→leb, length, get_or, get_elem?-eq-get_or, arith,
}
use project2_group.Devices.Block.{Block}
use project2_group.Filesys.Inode.{Inode, inode_length, byte_to_sector, direct}

-- 123 sectors of 512 bytes.
abbrev pub direct_bytes : ℕ
direct_bytes = 62976

abbrev pub sector_at : Inode → ℕ → ℕ
sector_at inode i = get_or inode.data'.sectors i 0

-- Byte `k` of the file.
unfoldable pub byte_at : (ℕ → List ℕ) → Inode → ℕ → ℕ
byte_at store inode k = get_or (store (sector_at inode (k / 512))) (k % 512) 0

-- The file fits in the direct sectors, which are on the device and distinct.
pub record IsDirect (size : ℕ) (inode : Inode) : Type 0 where
  pub pointers : length inode.data'.sectors ≡ 125
  pub short : inode_length inode ≤ direct_bytes
  pub placed : (i : ℕ) → i * 512 < inode_length inode → sector_at inode i < size
  pub apart :
      (i j : ℕ)
      → i * 512 < inode_length inode
      → j * 512 < inode_length inode
      → sector_at inode i ≡ sector_at inode j
      → i ≡ j

-- A byte below the direct limit is found at the direct pointer of its index, without a read.
pub byte_to_sector-direct :
    (dev : Block) (inode : Inode) (pos : ℕ)
    → length inode.data'.sectors ≡ 125
    → pos < direct_bytes
    → byte_to_sector dev inode pos ≡ ok (direct, sector_at inode (pos / 512), dev)
unfolding byte_to_sector
byte_to_sector-direct dev inode pos e h = rw (
  le→leb (pos / 512) 122 (omega arith),
  get_elem?-eq-get_or inode.data'.sectors (pos / 512) 0 (omega arith),
)
