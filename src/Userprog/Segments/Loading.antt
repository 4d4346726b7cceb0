-- ===== src/Userprog/Segments/Loading.antt =====
-- The case PT_LOAD of `load`: what is loaded where.
use project2_group.Base.{
  ℕ, ◌+◌, ◌-◌, ◌/◌, ◌%◌, ◌^◌, ◌≡◌, ◌⊎◌, refl, inl, inr, arith, Bool, true, false, not, Run, ok,
  ◌==◌, ==_iff, Bool-cases,
}
use project2_group.Threads.Palloc.{pg_ofs}
use project2_group.Userprog.Segments.{
  Phdr, Loader, load_segment, load_phdr, validate_segment, read_bytes, zero_bytes,
}
use project2_group.Userprog.Segments.Bounds.{
  IsPhdr, IsLoadable, IsExtent, validate_segment_lem, mem_page, page_cnt, page_cnt-IsExtent,
}
use project2_group.Userprog.Segments.Plan.{load_pages, load_loop_lem}

-- PF_W.
abbrev pub is_writable : Phdr → Bool
is_writable phdr = not (phdr.p_flags / 2 % 2 == 0)

module _ {S : Type 0} (l : Loader S) where
  -- The pages of the segment, from the start of the page in the file that it starts in.
  abbrev pub load_extent : Phdr → S → Run (Bool × S)
  load_extent phdr s =
      load_pages l (is_writable phdr) (mem_page phdr) (read_bytes phdr) (page_cnt phdr) 0
        (l.file_seek (phdr.p_offset - phdr.p_offset % 4096) s)

  load_segment-extent :
      (phdr : Phdr) (n : ℕ) (s : S)
      → IsLoadable phdr n
      → load_segment l
          (is_writable phdr)
          (phdr.p_offset - pg_ofs phdr.p_offset)
          (mem_page phdr)
          (read_bytes phdr)
          (zero_bytes phdr)
          s
        ≡ load_extent phdr s
  unfolding load_segment
  load_segment-extent phdr n s h =
      let x = page_cnt-IsExtent phdr n h in
      let total = x.total in
      let below = x.below in
      let aligned = x.aligned in
      let a : ((read_bytes phdr + zero_bytes phdr) % 2 ^ 32 % 4096 == 0) ≡ true =
        (==_iff _ 0).1 (omega arith) in
      let b : (mem_page phdr % 4096 == 0) ≡ true = (==_iff _ 0).1 aligned in
      let c : ((phdr.p_offset - phdr.p_offset % 4096) % 4096 == 0) ≡ true =
        (==_iff _ 0).1 (omega arith) in
      rw (a, b, c)
        (load_loop_lem l (is_writable phdr) (mem_page phdr) (read_bytes phdr) (page_cnt phdr) 0
          ((read_bytes phdr + zero_bytes phdr) / 4096 + 1) (mem_page phdr) (read_bytes phdr)
          (zero_bytes phdr) (l.file_seek (phdr.p_offset - phdr.p_offset % 4096) s) (omega arith)
          (omega arith) (omega arith) total below)

  -- For a header whose fields are words: a segment that is not `IsLoadable`, in the file and in user memory, is refused
  -- and changes nothing. For one that is, the ASSERTs of `load_segment` hold, and loading it is the loading of
  -- `page_cnt` whole pages one after another up to the first failure; the segment lies within these pages, which
  -- start at 4096 or above and end at PHYS_BASE or below.
  pub load_phdr_lem :
      (phdr : Phdr) (n : ℕ) (s : S)
      → IsPhdr phdr
      → ((¬ IsLoadable phdr n) × (load_phdr l phdr n s ≡ ok (false, s)))
        ⊎ (IsLoadable phdr n
            × (IsExtent phdr (page_cnt phdr) × (load_phdr l phdr n s ≡ load_extent phdr s)))
  unfolding load_phdr
  load_phdr_lem phdr n s w =
      let (sound, complete) = validate_segment_lem phdr n w in
      elim (Bool-cases (validate_segment phdr n)) [
        | inl v ↦ inr (
          sound v,
          (page_cnt-IsExtent phdr n (sound v), rw v (load_segment-extent phdr n s (sound v))),
        )
        | inr v ↦ inl ((λ h. let e = complete h in cc), rw v refl)
      ]
