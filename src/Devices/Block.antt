-- ===== src/Devices/Block.antt =====
-- devices/block.c: block devices. What the driver's `read` and `write` do to the medium is taken to
-- be what an ideal disk does: the device holds a list of 512 bytes for each sector.
use project2_group.Base.{
  ℕ, ◌+◌, ◌<◌, ◌≡◌, Bool, true, false, List, Run, ok, panic, ◌>>◌, assert, leb, ◌==◌, if◌then◌else◌,
  length, arith, not,
}

abbrev pub block_sector_size : ℕ
block_sector_size = 512

pub data BlockType : Type 0 where
  kernel filesys scratch swap raw foreign : BlockType

pub record Block : Type 0 where
  pub type : BlockType
  pub size : ℕ
  pub store : ℕ → List ℕ
  pub read_cnt : ℕ
  pub write_cnt : ℕ

abbrev pub is_foreign : BlockType → Bool
is_foreign foreign = true
is_foreign _ = false

abbrev pub check_sector : Block → ℕ → Run (Unit {0})
check_sector b sector = if leb b.size sector then panic else ok tt

-- The buffer's new contents, and the device.
unfoldable pub block_read : Block → ℕ → Run (List ℕ × Block)
block_read b sector = do
  check_sector b sector
  ok (b.store sector, record b { read_cnt = b.read_cnt + 1 })

abbrev pub store_sector : (ℕ → List ℕ) → ℕ → List ℕ → ℕ → List ℕ
store_sector f sector bytes s = if s == sector then bytes else f s

unfoldable pub block_write : Block → ℕ → List ℕ → Run Block
block_write b sector bytes = do
  check_sector b sector
  assert (not (is_foreign b.type))
  ok (record b { store = store_sector b.store sector bytes; write_cnt = b.write_cnt + 1 })

-- The device that a file system is on: every sector is full, and Pintos may write to it.
pub record IsDisk (b : Block) : Type 0 where
  pub full : (s : ℕ) → length (b.store s) ≡ 512
  pub ours : is_foreign b.type ≡ false

pub block_read-ok :
    (b : Block) (s : ℕ)
    → s < b.size
    → block_read b s ≡ ok (b.store s, record b { read_cnt = b.read_cnt + 1 })
unfolding block_read
block_read-ok b s h = ground arith

unfoldable pub written : Block → ℕ → List ℕ → Block
written b s bytes = record b { store = store_sector b.store s bytes; write_cnt = b.write_cnt + 1 }

pub block_write-ok :
    (b : Block) (s : ℕ) (bytes : List ℕ)
    → IsDisk b
    → s < b.size
    → block_write b s bytes ≡ ok (written b s bytes)
unfolding block_write written
block_write-ok b s bytes d h = ground (arith, d.ours)

pub written-IsDisk :
    {b : Block} (s : ℕ) (bytes : List ℕ)
    → IsDisk b
    → length bytes ≡ 512
    → IsDisk (written b s bytes)
unfolding written
written-IsDisk s bytes d h = record { full = λ t. ground (arith, d.full t); ours = d.ours }

unfoldable pub block_size : Block → ℕ
block_size b = b.size
