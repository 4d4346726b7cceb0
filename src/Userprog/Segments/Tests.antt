-- ===== src/Userprog/Segments/Tests.antt =====
-- A segment of two pages, over a loader that notes the pages it installs.
use project2_group.Base.{ℕ, ◌+◌, ◌≡◌, ◌↔◌, ◌⊎◌, refl, arith, true, false, some, List, [], ◌∷◌, ok}
use project2_group.Userprog.Segments.{
  Phdr, Loader, load_phdr, load_segment, load_loop, load_page, fill_page, validate_segment,
}
use project2_group.Userprog.Segments.Bounds.{
  IsPhdr, IsLoadable, IsExtent, validate_segment_lem, page_cnt,
}
use project2_group.Userprog.Segments.Loading.{load_extent, load_phdr_lem}

record Notes : Type 0 where
  position : ℕ
  next_page : ℕ
  installed : List (ℕ × ℕ)

abbrev noting : Loader Notes
noting = record {
  file_seek = λ ofs s. record s { position = ofs };
  palloc_get_page = λ s. (some s.next_page, record s { next_page = s.next_page + 4096 });
  file_read = λ kpage size s. ok (size, record s { position = s.position + size });
  clear = λ kpage from size s. s;
  install_page =
      λ upage kpage writable s. (true, record s { installed = (upage, kpage) ∷ s.installed });
  palloc_free_page = λ kpage s. ok s;
}

-- 5000 bytes in the file at offset 4196, 6000 in memory at 0x08049064.
abbrev two_pages : Phdr
two_pages = record {
  p_offset = 4196;
  p_vaddr = 0x08049064;
  p_filesz = 5000;
  p_memsz = 6000;
  p_flags = 6;
}

abbrev nothing_yet : Notes
nothing_yet = record { position = 0; next_page = 0x100000; installed = [] }

two_pages-IsPhdr : IsPhdr two_pages
two_pages-IsPhdr = record {
  offset = omega arith;
  vaddr = omega arith;
  filesz = omega arith;
  memsz = omega arith;
}

load_phdr_test :
    load_phdr noting two_pages 9196 nothing_yet
    ≡ ok (
      true,
      record {
        position = 9196;
        next_page = 0x102000;
        installed = (0x0804a000, 0x101000) ∷ (0x08049000, 0x100000) ∷ [];
      },
    )
unfolding load_phdr load_segment load_loop load_page fill_page validate_segment
load_phdr_test = refl

validate_segment_lem_example : (validate_segment two_pages 9196 ≡ true) ↔ IsLoadable two_pages 9196
validate_segment_lem_example = validate_segment_lem two_pages 9196 two_pages-IsPhdr

load_phdr_lem_example :
    ((¬ IsLoadable two_pages 9196)
      × (load_phdr noting two_pages 9196 nothing_yet ≡ ok (false, nothing_yet)))
    ⊎ (IsLoadable two_pages 9196
        × (IsExtent two_pages (page_cnt two_pages)
            × (load_phdr noting two_pages 9196 nothing_yet
                ≡ load_extent noting two_pages nothing_yet)))
load_phdr_lem_example = load_phdr_lem noting two_pages 9196 nothing_yet two_pages-IsPhdr
