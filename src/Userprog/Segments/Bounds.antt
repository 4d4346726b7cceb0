-- ===== src/Userprog/Segments/Bounds.antt =====
-- The segments that are loaded, and the memory that they take.
use project2_group.Base.{ℕ, ◌+◌, ◌-◌, ◌*◌, ◌/◌, ◌%◌, ◌^◌, ◌≤◌, ◌<◌, ◌≡◌, ◌↔◌, arith, true}
use project2_group.Threads.Palloc.{pg_ofs}
use project2_group.Userprog.Arguments.{phys_base}
use project2_group.Userprog.Segments.{Phdr, validate_segment, round_up, read_bytes, zero_bytes}

-- The fields are words.
pub record IsPhdr (phdr : Phdr) : Type 0 where
  pub offset : phdr.p_offset < 2 ^ 32
  pub vaddr : phdr.p_vaddr < 2 ^ 32
  pub filesz : phdr.p_filesz < 2 ^ 32
  pub memsz : phdr.p_memsz < 2 ^ 32

-- A segment in the file, not empty, between page 0 and PHYS_BASE, both ends counted.
pub record IsLoadable (phdr : Phdr) (file_length : ℕ) : Type 0 where
  pub congruent : phdr.p_offset % 4096 ≡ phdr.p_vaddr % 4096
  pub in_file : phdr.p_offset ≤ file_length
  pub fits : phdr.p_filesz ≤ phdr.p_memsz
  pub nonempty : 0 < phdr.p_memsz
  pub above : 4096 ≤ phdr.p_vaddr
  pub below : phdr.p_vaddr + phdr.p_memsz < phys_base

valid : (phdr : Phdr) (n : ℕ) → IsPhdr phdr → validate_segment phdr n ≡ true → IsLoadable phdr n
unfolding validate_segment
valid phdr n w e =
    let a = w.vaddr in
    let b = w.memsz in
    record {
      congruent = ground arith;
      in_file = ground arith;
      fits = ground arith;
      nonempty = ground arith;
      above = ground arith;
      below = ground arith;
    }

loadable : (phdr : Phdr) (n : ℕ) → IsPhdr phdr → IsLoadable phdr n → validate_segment phdr n ≡ true
unfolding validate_segment
loadable phdr n w l =
    let a = l.congruent in
    let b = l.in_file in
    let c = l.fits in let d = l.nonempty in let e = l.above in let f = l.below in ground arith

-- For a header whose fields are words: `validate_segment` is true exactly for a segment that starts in the file,
-- with the same offset in a page there and in memory, is not empty nor shorter in memory than in the file, and
-- lies, with its end and as numbers that do not wrap, at or above 4096 and below PHYS_BASE.
pub validate_segment_lem :
    (phdr : Phdr) (n : ℕ) → IsPhdr phdr → (validate_segment phdr n ≡ true) ↔ IsLoadable phdr n
validate_segment_lem phdr n w = (valid phdr n w, loadable phdr n w)

abbrev pub mem_page : Phdr → ℕ
mem_page phdr = phdr.p_vaddr - pg_ofs phdr.p_vaddr

-- The pages from the one that the segment starts in to the one that it ends in.
abbrev pub page_cnt : Phdr → ℕ
page_cnt phdr = (phdr.p_vaddr % 4096 + phdr.p_memsz + 4095) / 4096

-- `n` whole pages of the user's that hold the segment.
pub record IsExtent (phdr : Phdr) (n : ℕ) : Type 0 where
  pub total : read_bytes phdr + zero_bytes phdr ≡ 4096 * n
  pub aligned : mem_page phdr % 4096 ≡ 0
  pub above : 4096 ≤ mem_page phdr
  pub start : mem_page phdr ≤ phdr.p_vaddr
  pub finish : phdr.p_vaddr + phdr.p_memsz ≤ mem_page phdr + 4096 * n
  pub below : mem_page phdr + 4096 * n ≤ phys_base

read_bound :
    (phdr : Phdr) (n : ℕ) → IsLoadable phdr n → read_bytes phdr ≤ phdr.p_vaddr % 4096 + phdr.p_memsz
read_bound phdr n l = let a = l.fits in let b = l.below in ground arith

round_up_exact : (x : ℕ) → x + 4095 < 2 ^ 32 → round_up (x % 2 ^ 32) ≡ 4096 * ((x + 4095) / 4096)
round_up_exact x h = omega arith

pub page_cnt-IsExtent : (phdr : Phdr) (n : ℕ) → IsLoadable phdr n → IsExtent phdr (page_cnt phdr)
page_cnt-IsExtent phdr n l =
    let below = l.below in
    let above = l.above in
    let r = read_bound phdr n l in
    let x = phdr.p_vaddr % 4096 + phdr.p_memsz in
    let u = round_up_exact x (omega arith) in
    let z : zero_bytes phdr ≡ 4096 * page_cnt phdr - read_bytes phdr = rw u (omega arith) in
    record {
      total = omega arith;
      aligned = omega arith;
      above = omega arith;
      start = omega arith;
      finish = omega arith;
      below = omega arith;
    }
