-- ===== src/Filesys/FreeMap/Tests.antt =====
-- The theorems about the free map at the state of `Sample`: sectors 0 to 3 of eight are in use.
use project2_group.Base.{
  ℕ, suc, ◌≡◌, refl, true, false, Option, ok, none, arith, zero, bit_of, bytes_of,
}
use project2_group.Klib.Bitmap.{
  Bitmap, bitmap_scan_and_flip, bitmap_scan, bitmap_contains, bitmap_test, bitmap_set_multiple,
  bitmap_set,
}
use project2_group.Klib.Bitmap.View.{bit}
use project2_group.Klib.Bitmap.Ranges.{IsSetRange, Uniform}
use project2_group.Filesys.State.{Fs}
use project2_group.Filesys.Sample.{blank-IsDisk, map_file, file_of-IsDirect, in_use, in_use-IsValid}
use project2_group.Filesys.Inode.{byte_to_sector}
use project2_group.Devices.Block.{block_read, block_write}
use project2_group.Filesys.Write.{inode_write_at, write_loop, write_round, write_chunk}
use project2_group.Filesys.FreeMap.{
  free_map_allocate, record_allocation, bitmap_write, free_map_release,
}
use project2_group.Filesys.FreeMap.Allocate.{
  IsMapFile, IsSync, IsAllocation, free_map_allocate_lem, free_map_allocate_unsaved,
}
use project2_group.Filesys.FreeMap.Release.{free_map_release_lem, release-allocate}

map_file-IsMapFile : IsMapFile in_use map_file
map_file-IsMapFile = record {
  direct = file_of-IsDirect 4 (omega arith);
  writable = refl;
  room = refl;
}

free_map_allocate_lem_example :
    (got : Option ℕ) × (fs' : Fs) × (free_map_allocate 1 true true 2 in_use ≡ ok (got, fs'))
    × IsAllocation in_use 2 (λ a b. IsSync a b map_file) got fs'
free_map_allocate_lem_example =
    free_map_allocate_lem 0 2 in_use map_file blank-IsDisk in_use-IsValid refl map_file-IsMapFile

free_map_allocate_unsaved_test :
    (got : Option ℕ) × (fs' : Fs) × (free_map_allocate 1 true true 2
        (record in_use { free_map_file = none })
      ≡ ok (got, fs'))
    × IsAllocation (record in_use { free_map_file = none }) 2 (λ a b. b ≡ a) got fs'
free_map_allocate_unsaved_test =
    free_map_allocate_unsaved 0 2 (record in_use { free_map_file = none }) in_use-IsValid refl

low_bits_set : Uniform (bit in_use.free_map) 1 2 true
unfolding bit bit_of
low_bits_set zero lo hi = absurd (omega arith)
low_bits_set (suc zero) lo hi = refl
low_bits_set (suc (suc zero)) lo hi = refl
low_bits_set (suc (suc (suc j))) lo hi = absurd (omega arith)

free_map_release_lem_test :
    (map' : Bitmap) × (fs' : Fs) × (free_map_release
        (free_map_allocate 0 true true)
        true
        true
        1
        2
        in_use
      ≡ ok fs')
    × IsSetRange in_use.free_map map' 1 3 false
    × IsSync (record in_use { free_map = map' }) fs' map_file
free_map_release_lem_test =
    free_map_release_lem (free_map_allocate 0 true true) in_use map_file 1 2 blank-IsDisk
      in_use-IsValid refl map_file-IsMapFile (omega arith) low_bits_set

-- The state after two sectors are allocated.
abbrev allocated : Fs
allocated = elim (free_map_allocate 1 true true 2 in_use) [ ok result ↦ result.1 | other ↦ in_use ]

release-allocate_example :
    (fs'' : Fs) × (free_map_release (free_map_allocate 0 true true) true true 4 2 allocated
      ≡ ok fs'')
    × ((j : ℕ) → bit fs''.free_map j ≡ bit in_use.free_map j)
unfolding free_map_allocate bitmap_scan_and_flip bitmap_scan bitmap_contains bitmap_test
    bitmap_set_multiple bitmap_set record_allocation bitmap_write inode_write_at write_loop
    write_round write_chunk byte_to_sector block_read block_write bytes_of
release-allocate_example =
    release-allocate 0 2 in_use map_file blank-IsDisk in_use-IsValid refl map_file-IsMapFile 4
      allocated refl
