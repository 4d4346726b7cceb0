-- ===== src/Filesys/FreeMap/Release.antt =====
-- `free_map_release`, and that it undoes `free_map_allocate`.
use project2_group.Base.{
  ℕ, suc, ◌+◌, ◌≤◌, ◌≡◌, sym, ap, ◌∙◌, subst, true, false, some, ok, ltb, leb, ◌&&◌, if◌then◌else◌,
  arith,
}
use project2_group.Base.{ok-injective}
use project2_group.Klib.Bitmap.{Bitmap, byte_cnt}
use project2_group.Klib.Bitmap.View.{bit, IsValid}
use project2_group.Klib.Bitmap.Ranges.{IsSetRange, Uniform, bitmap_all-ok, bitmap_set_multiple-ok}
use project2_group.Devices.Block.{IsDisk}
use project2_group.Filesys.Inode.{Inode}
use project2_group.Filesys.State.{Fs}
use project2_group.Filesys.Write.{Allocator}
use project2_group.Filesys.FreeMap.{free_map_release, record_release, free_map_allocate}
use project2_group.Filesys.FreeMap.Allocate.{
  IsMapFile, IsSync, IsAllocation, given, full, bitmap_write_lem, IsSync-IsMapFile,
  free_map_allocate_lem,
}

-- With the free map file open, and on a disk and a map in order, releasing sectors that are all marked
-- succeeds and clears their bits and no others,
-- and the file on the device holds the new map.
pub free_map_release_lem :
    (alloc : Allocator) (fs : Fs) (file : Inode) (sector cnt : ℕ)
    → IsDisk fs.dev
    → IsValid fs.free_map
    → fs.free_map_file ≡ some file
    → IsMapFile fs file
    → sector + cnt ≤ fs.free_map.bit_cnt
    → Uniform (bit fs.free_map) sector cnt true
    → (map' : Bitmap) × (fs' : Fs) × (free_map_release alloc true true sector cnt fs ≡ ok fs')
      × IsSetRange fs.free_map map' sector (sector + cnt) false
      × IsSync (record fs { free_map = map' }) fs' file
unfolding free_map_release record_release
free_map_release_lem alloc fs file sector cnt disk valid e m h u =
    let (map', q, set) = bitmap_set_multiple-ok fs.free_map sector cnt false valid h in
    let fs' = record fs { free_map = map' } in
    let m' : IsMapFile fs' file = record {
      direct = m.direct;
      writable = m.writable;
      room = m.room ∙ ap byte_cnt (sym set.same_size);
    } in
    let (synced, q', s) = bitmap_write_lem alloc fs' file disk set.valid m' in
    (
      map',
      synced,
      rw (bitmap_all-ok fs.free_map sector cnt valid h u, q)
          (ap (record_release alloc true true fs') e ∙ rw q'),
      set,
      s,
    )

undone :
    (depth cnt : ℕ) (fs : Fs) (file : Inode) (r : ℕ) (fs' : Fs) (map' : Bitmap)
    → fs.free_map_file ≡ some file
    → IsMapFile fs file
    → r + cnt ≤ fs.free_map.bit_cnt
    → Uniform (bit fs.free_map) r cnt false
    → IsSetRange fs.free_map map' r (r + cnt) true
    → IsSync (record fs { free_map = map' }) fs' file
    → (fs'' : Fs) × (free_map_release (free_map_allocate depth true true) true true r cnt fs'
        ≡ ok fs'')
      × ((j : ℕ) → bit fs''.free_map j ≡ bit fs.free_map j)
undone depth cnt fs file r fs' map' e m fits free set sync =
    let m' : IsMapFile (record fs { free_map = map' }) file = record {
      direct = m.direct;
      writable = m.writable;
      room = m.room ∙ ap byte_cnt (sym set.same_size);
    } in
    let bits : (j : ℕ)
        → bit fs'.free_map j ≡ (if leb r j && ltb j (r + cnt) then true else bit fs.free_map j) =
      λ j. ap (λ b. bit b j) sync.same_map ∙ set.bits j in
    let (map2, fs'', q, set', sync') =
      free_map_release_lem (free_map_allocate depth true true) fs' file r cnt sync.disk
        (subst IsValid (sym sync.same_map) set.valid) (sync.same_file ∙ e)
        (IsSync-IsMapFile sync m') (omega (arith, ap (λ b. b.bit_cnt) sync.same_map, set.same_size))
        (λ j lo hi. ground (arith, bits j)) in
    (fs'', q, λ j. ap (λ b. bit b j) sync'.same_map ∙ ground (arith, set'.bits j, bits j, free j))

-- With the free map file open, and on a disk and a map in order, the sectors that `free_map_allocate` gave
-- can be released, and the map then has the bits it had before the allocation.
pub release-allocate :
    (depth cnt : ℕ) (fs : Fs) (file : Inode)
    → IsDisk fs.dev
    → IsValid fs.free_map
    → fs.free_map_file ≡ some file
    → IsMapFile fs file
    → (r : ℕ) (fs' : Fs) → free_map_allocate (suc depth) true true cnt fs ≡ ok (some r, fs')
    → (fs'' : Fs) × (free_map_release (free_map_allocate depth true true) true true r cnt fs'
        ≡ ok fs'')
      × ((j : ℕ) → bit fs''.free_map j ≡ bit fs.free_map j)
release-allocate depth cnt fs file disk valid e m r fs' q =
    let (got, fs1, q1, a) = free_map_allocate_lem depth cnt fs file disk valid e m in
    restored (
      subst (λ p. IsAllocation fs cnt (λ a b. IsSync a b file) p.0 p.1) (ok-injective (sym q1 ∙ q))
        a)
  where
    restored :
        IsAllocation fs cnt (λ a b. IsSync a b file) (some r) fs'
        → (fs'' : Fs) × (free_map_release (free_map_allocate depth true true) true true r cnt fs'
            ≡ ok fs'')
          × ((j : ℕ) → bit fs''.free_map j ≡ bit fs.free_map j)
    restored (full bad _ _) = cc
    restored (given r' map' same scan fits free set sync) =
        let start : r ≡ r' = cc in
        undone depth cnt fs file r fs' map' e m (omega (arith, start))
          (subst (λ t. Uniform (bit fs.free_map) t cnt false) (sym start) free)
          (subst (λ t. IsSetRange fs.free_map map' t (t + cnt) true) (sym start) set) sync
