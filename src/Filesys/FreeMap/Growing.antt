-- ===== src/Filesys/FreeMap/Growing.antt =====
-- Where the free map has room, `free_map_allocate` finds sectors for `inode_write_at`.
use project2_group.Base.{
  ℕ, suc, ◌+◌, ◌≤◌, ◌≡◌, sym, ap, ◌∙◌, subst, true, false, Option, some, ok, arith,
}
use project2_group.Klib.Bitmap.{bitmap_error}
use project2_group.Klib.Bitmap.View.{IsValid, bit}
use project2_group.Klib.Bitmap.Ranges.{Uniform}
use project2_group.Klib.Bitmap.Scan.{IsScan, found, missing}
use project2_group.Filesys.Inode.{Inode}
use project2_group.Filesys.Inode.Layout.{IsDirect}
use project2_group.Filesys.State.{Fs}
use project2_group.Filesys.Write.Within.{Gives}
use project2_group.Filesys.FreeMap.{free_map_allocate}
use project2_group.Filesys.FreeMap.Allocate.{
  IsMapFile, IsSync, IsAllocation, given, full, free_map_allocate_lem,
}

no_error :
    (fs : Fs) (cnt i : ℕ)
    → IsValid fs.free_map
    → i + cnt ≤ fs.free_map.bit_cnt
    → Uniform (bit fs.free_map) i cnt false
    → IsScan fs.free_map 0 cnt false bitmap_error
    → ⊥
no_error fs cnt i v h u (found lo hi x y) = let s = v.small in omega arith
no_error fs cnt i v h u (missing e m) = m i (omega arith) h u

gives_some :
    (fs fs' : Fs) (file : Inode) (cnt i : ℕ) (got : Option ℕ)
    → IsValid fs.free_map
    → i + cnt ≤ fs.free_map.bit_cnt
    → Uniform (bit fs.free_map) i cnt false
    → IsAllocation fs cnt (λ a b. IsSync a b file) got fs'
    → (t : ℕ) × (got ≡ some t)
gives_some fs fs' file cnt i got v h u (given r map' e scan fits free set kept) = (r, e)
gives_some fs fs' file cnt i got v h u (full e scan same) = absurd (no_error fs cnt i v h u scan)

-- With the free map file open, and `cnt` free sectors in a row in a map in order.
pub free_map_allocate-Gives :
    (depth cnt i : ℕ) (fs : Fs) (file : Inode)
    → IsValid fs.free_map
    → fs.free_map_file ≡ some file
    → IsMapFile fs file
    → i + cnt ≤ fs.free_map.bit_cnt
    → Uniform (bit fs.free_map) i cnt false
    → Gives (free_map_allocate (suc depth) true true) cnt fs
free_map_allocate-Gives depth cnt i fs file v e m h u dev disk size =
    let fs₁ : Fs = record fs { dev = dev } in
    let m₁ : IsMapFile fs₁ file = record {
      direct = subst (λ n. IsDirect n file) (sym size) m.direct;
      writable = m.writable;
      room = m.room;
    } in
    let a = free_map_allocate_lem depth cnt fs₁ file disk v e m₁ in
    let g = gives_some fs₁ a.1 file cnt i a.0 v h u a.3 in
    (g.0, a.1, a.2 ∙ ap (λ o. ok (o, a.1)) g.1)
