-- ===== src/Filesys/FreeMap/Allocate.antt =====
-- `free_map_allocate`: the sectors that it gives, and the copy of the free map on the device.
use project2_group.Base.{
  ℕ, suc, ◌+◌, ◌-◌, ◌*◌, ◌≤◌, ◌<◌, ◌≡◌, ◌≢◌, refl, sym, ap, ◌∙◌, subst, true, false, List, Option,
  some, none, ok, ltb, leb, ◌==◌, ◌&&◌, if◌then◌else◌, length, get_or, arith, bytes_of,
  length-bytes_of,
}
use project2_group.Klib.Bitmap.{Bitmap, bitmap_error, byte_cnt, bitmap_scan_and_flip}
use project2_group.Klib.Bitmap.View.{bit, IsValid}
use project2_group.Klib.Bitmap.Ranges.{IsSetRange, Uniform}
use project2_group.Klib.Bitmap.Scan.{IsScan, IsFlip, flipped, no_group, bitmap_scan_and_flip_lem}
use project2_group.Devices.Block.{IsDisk}
use project2_group.Filesys.Inode.{Inode, inode_length}
use project2_group.Filesys.Inode.Layout.{IsDirect, byte_at, sector_at}
use project2_group.Filesys.State.{Fs}
use project2_group.Filesys.Write.{Allocator}
use project2_group.Filesys.Write.Within.{inode_write_at_within}
use project2_group.Filesys.FreeMap.{bitmap_write, record_allocation, free_map_allocate}

-- `file` can hold the free map: it lies in direct sectors, has the map's length, and is not
-- protected from writes.
pub record IsMapFile (fs : Fs) (file : Inode) : Type 0 where
  pub direct : IsDirect fs.dev.size file
  pub writable : file.deny_write_cnt ≡ 0
  pub room : inode_length file ≡ byte_cnt fs.free_map.bit_cnt

-- The file has the map's elements, byte for byte.
abbrev pub IsSaved : Fs → Inode → Type 0
IsSaved fs file =
    (k : ℕ)
    → k < inode_length file
    → byte_at fs.dev.store file k ≡ get_or (bytes_of fs.free_map.bits) k 0

-- `fs'` is `fs` after its map has been written to `file`.
pub record IsSync (fs fs' : Fs) (file : Inode) : Type 0 where
  pub disk : IsDisk fs'.dev
  pub same_size : fs'.dev.size ≡ fs.dev.size
  pub same_map : fs'.free_map ≡ fs.free_map
  pub same_file : fs'.free_map_file ≡ fs.free_map_file
  pub saved : IsSaved fs' file
  pub others :
      (t : ℕ)
      → ((i : ℕ) → i * 512 < inode_length file → sector_at file i ≢ t)
      → fs'.dev.store t ≡ fs.dev.store t

whole :
    (v : ℕ) (bytes : List ℕ) (n k : ℕ)
    → k < n
    → (if leb 0 k && ltb k (0 + n) then get_or bytes (k - 0) 0 else v) ≡ get_or bytes k 0
whole v bytes n k h =
    let inside : (leb 0 k && ltb k (0 + n)) ≡ true = ground arith in
    rw inside (ap (λ i. get_or bytes i 0) (omega arith))

-- Writing the map succeeds, whatever allocator it is given.
pub bitmap_write_lem :
    (alloc : Allocator) (fs : Fs) (file : Inode)
    → IsDisk fs.dev
    → IsValid fs.free_map
    → IsMapFile fs file
    → (fs' : Fs) × (bitmap_write alloc true true file fs ≡ ok (true, fs')) × IsSync fs fs' file
unfolding bitmap_write
bitmap_write_lem alloc fs file disk valid m =
    let size = byte_cnt fs.free_map.bit_cnt in
    let enough : size ≤ length (bytes_of fs.free_map.bits) =
      omega (arith, length-bytes_of fs.free_map.bits, valid.elems) in
    let (dev, q, w) =
      inode_write_at_within alloc file fs (bytes_of fs.free_map.bits) size 0 disk m.direct
        m.writable (omega (arith, m.room)) enough in
    (
      record fs { dev = dev },
      rw q (ground arith),
      record {
        disk = w.disk;
        same_size = w.same_size;
        same_map = refl;
        same_file = refl;
        saved =
            λ k h. w.bytes k h ∙ whole _ (bytes_of fs.free_map.bits) size k (omega (arith, m.room));
        others = w.others;
      },
    )

-- What `free_map_allocate (cnt, …)` did to `fs`. If it gave `r`, the `cnt` sectors from `r` on were the
-- first free ones in a row, they and no others are now marked, and the map was kept as `Kept` says.
pub data IsAllocation (fs : Fs) (cnt : ℕ) (Kept : Fs → Fs → Type 0) (got : Option ℕ) (fs' : Fs)
    : Type 0 where
  given :
      (r : ℕ) (map' : Bitmap)
      → got ≡ some r
      → IsScan fs.free_map 0 cnt false r
      → r + cnt ≤ fs.free_map.bit_cnt
      → Uniform (bit fs.free_map) r cnt false
      → IsSetRange fs.free_map map' r (r + cnt) true
      → Kept (record fs { free_map = map' }) fs'
      → IsAllocation fs cnt Kept got fs'
  full :
      got ≡ none
      → IsScan fs.free_map 0 cnt false bitmap_error
      → fs' ≡ fs
      → IsAllocation fs cnt Kept got fs'

-- The step from the scan to the record on the device, for any way to keep the map.
allocation :
    (depth cnt : ℕ) (fs : Fs) (Kept : Fs → Fs → Type 0)
    → IsValid fs.free_map
    → ((r : ℕ) (map' : Bitmap)
        → IsSetRange fs.free_map map' r (r + cnt) true
        → (fs' : Fs) × (record_allocation
              (free_map_allocate depth true true)
              true
              true
              r
              cnt
              (record fs { free_map = map' })
              fs.free_map_file
            ≡ ok (some r, fs'))
          × Kept (record fs { free_map = map' }) fs')
    → (got : Option ℕ) × (fs' : Fs) × (free_map_allocate (suc depth) true true cnt fs
        ≡ ok (got, fs'))
      × IsAllocation fs cnt Kept got fs'
unfolding free_map_allocate
allocation depth cnt fs Kept valid keep =
    let (r, map', q, f) = bitmap_scan_and_flip_lem fs.free_map 0 cnt false valid (omega arith) in
    go r map' q f
  where
    go :
        (r : ℕ) (map' : Bitmap)
        → bitmap_scan_and_flip fs.free_map 0 cnt false ≡ ok (r, map')
        → IsFlip fs.free_map 0 cnt false r map'
        → (got : Option ℕ) × (fs' : Fs) × (free_map_allocate (suc depth) true true cnt fs
            ≡ ok (got, fs'))
          × IsAllocation fs cnt Kept got fs'
    go r map' q (flipped ne scan fits free set) =
        let (fs', q', kept) = keep r map' set in
        let found : (r == bitmap_error) ≡ false = ground arith in
        (some r, fs', rw (q, found) q', given r map' refl scan fits free set kept)
    go r map' q (no_group err scan same) = (
      none,
      record fs { free_map = map' },
      rw (q, err),
      full refl (subst (IsScan fs.free_map 0 cnt false) err scan)
          (ap (λ m. record fs { free_map = m }) same),
    )

-- With the free map file open, memory, and a device and a map in order, `free_map_allocate` returns.
-- The `cnt` sectors that it gives are the first free ones in a row; they and no others become marked
-- in the map, the file on the device holds the new map, and no sector outside the file is written. If
-- there are no such sectors, nothing changes.
pub free_map_allocate_lem :
    (depth cnt : ℕ) (fs : Fs) (file : Inode)
    → IsDisk fs.dev
    → IsValid fs.free_map
    → fs.free_map_file ≡ some file
    → IsMapFile fs file
    → (got : Option ℕ) × (fs' : Fs) × (free_map_allocate (suc depth) true true cnt fs
        ≡ ok (got, fs'))
      × IsAllocation fs cnt (λ a b. IsSync a b file) got fs'
unfolding record_allocation
free_map_allocate_lem depth cnt fs file disk valid e m =
    allocation depth cnt fs (λ a b. IsSync a b file) valid keep
  where
    keep :
        (r : ℕ) (map' : Bitmap)
        → IsSetRange fs.free_map map' r (r + cnt) true
        → (fs' : Fs) × (record_allocation
              (free_map_allocate depth true true)
              true
              true
              r
              cnt
              (record fs { free_map = map' })
              fs.free_map_file
            ≡ ok (some r, fs'))
          × IsSync (record fs { free_map = map' }) fs' file
    keep r map' set =
        let fs' = record fs { free_map = map' } in
        let m' : IsMapFile fs' file = record {
          direct = m.direct;
          writable = m.writable;
          room = m.room ∙ ap byte_cnt (sym set.same_size);
        } in
        let (synced, q, s) =
          bitmap_write_lem (free_map_allocate depth true true) fs' file disk set.valid m' in
        (
          synced,
          ap (record_allocation (free_map_allocate depth true true) true true r cnt fs') e ∙ rw q,
          s,
        )

-- Before the free map file is open, and with a valid map, `free_map_allocate` returns, the map in memory changes as it
-- does with an open file, and the device is not touched.
pub free_map_allocate_unsaved :
    (depth cnt : ℕ) (fs : Fs)
    → IsValid fs.free_map
    → fs.free_map_file ≡ none
    → (got : Option ℕ) × (fs' : Fs) × (free_map_allocate (suc depth) true true cnt fs
        ≡ ok (got, fs'))
      × IsAllocation fs cnt (λ a b. b ≡ a) got fs'
unfolding record_allocation
free_map_allocate_unsaved depth cnt fs valid e =
    allocation depth cnt fs (λ a b. b ≡ a) valid
      (λ r map' set. (
        record fs { free_map = map' },
        ap
            (record_allocation (free_map_allocate depth true true) true true r cnt
              (record fs { free_map = map' }))
            e,
        refl,
      ))

-- The file is still in order after the map was written to it.
pub IsSync-IsMapFile :
    {fs fs' : Fs} {file : Inode} → IsSync fs fs' file → IsMapFile fs file → IsMapFile fs' file
IsSync-IsMapFile {fs} {fs'} {file} s m = record {
  direct = subst (λ n. IsDirect n file) (sym s.same_size) m.direct;
  writable = m.writable;
  room = m.room ∙ ap (λ b. byte_cnt b.bit_cnt) (sym s.same_map);
}
