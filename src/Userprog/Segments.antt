-- ===== src/Userprog/Segments.antt =====
-- userprog/process.c: the segments of a program. Words wrap at 32 bits. What loading does to memory, the page
-- tables and the file is `Loader`, over a state of any type.
pub mod Plan
pub mod Bounds
pub mod Loading
mod Tests
use project2_group.Base.{
  ℕ, zero, suc, ◌+◌, ◌-◌, ◌*◌, ◌/◌, ◌%◌, ◌^◌, Bool, true, false, not, Option, none, some, Run, ok,
  out_of_fuel, assert, ◌>>=◌, ◌>>◌, leb, ltb, ◌==◌, ◌&&◌, ◌||◌, if◌then◌else◌,
}
use project2_group.Threads.Palloc.{pgsize, pg_ofs}
use project2_group.Userprog.Arguments.{phys_base}

pub record Phdr : Type 0 where
  pub p_offset : ℕ
  pub p_vaddr : ℕ
  pub p_filesz : ℕ
  pub p_memsz : ℕ
  pub p_flags : ℕ

abbrev pub is_user_vaddr : ℕ → Bool
is_user_vaddr vaddr = ltb vaddr phys_base

unfoldable pub validate_segment : Phdr → ℕ → Bool
validate_segment phdr file_length =
    if not (pg_ofs phdr.p_offset == pg_ofs phdr.p_vaddr)
    then false
    else if ltb file_length phdr.p_offset
    then false
    else if ltb phdr.p_memsz phdr.p_filesz
    then false
    else if phdr.p_memsz == 0
    then false
    else if not (is_user_vaddr phdr.p_vaddr)
    then false
    else if not (is_user_vaddr ((phdr.p_vaddr + phdr.p_memsz) % 2 ^ 32))
    then false
    else if ltb ((phdr.p_vaddr + phdr.p_memsz) % 2 ^ 32) phdr.p_vaddr
    then false
    else if ltb phdr.p_vaddr pgsize
    then false
    else true

-- ROUND_UP (x, PGSIZE).
abbrev pub round_up : ℕ → ℕ
round_up x = (x + (pgsize - 1)) % 2 ^ 32 / pgsize * pgsize

abbrev pub read_bytes : Phdr → ℕ
read_bytes phdr = if ltb 0 phdr.p_filesz then (pg_ofs phdr.p_vaddr + phdr.p_filesz) % 2 ^ 32 else 0

-- The difference does not wrap, as `Bounds` shows for a valid segment.
abbrev pub zero_bytes : Phdr → ℕ
zero_bytes phdr =
    (round_up ((pg_ofs phdr.p_vaddr + phdr.p_memsz) % 2 ^ 32) + 2 ^ 32 - read_bytes phdr) % 2 ^ 32

-- What the loop of `load_segment` calls. The page of memory is an address.
pub record Loader (S : Type 0) : Type 0 where
  pub file_seek : ℕ → S → S
  pub palloc_get_page : S → Option ℕ × S
  -- Reads into the page, and returns the number of bytes.
  pub file_read : (kpage size : ℕ) → S → Run (ℕ × S)
  -- `memset (kpage + from, 0, size)`.
  pub clear : (kpage from size : ℕ) → S → S
  pub install_page : (upage kpage : ℕ) → (writable : Bool) → S → Bool × S
  pub palloc_free_page : ℕ → S → Run S

module _ {S : Type 0} (l : Loader S) (writable : Bool) where
  -- A page whose file contents are read, and the rest of it.
  unfoldable pub fill_page : (kpage upage page_read_bytes : ℕ) → S → Run (Bool × S)
  fill_page kpage upage page_read_bytes s = do
    (n, s₁) ← l.file_read kpage page_read_bytes s
    if n == page_read_bytes
        then (do
          let (installed, s₂) =
              l.install_page upage kpage writable
                (l.clear kpage page_read_bytes (pgsize - page_read_bytes) s₁)
          if installed
              then ok (true, s₂)
              else (do s₃ ← l.palloc_free_page kpage s₂; ok (false, s₃)))
        else (do s₂ ← l.palloc_free_page kpage s₁; ok (false, s₂))

  -- The body of the loop: whether it goes on.
  unfoldable pub load_page : (upage page_read_bytes : ℕ) → S → Run (Bool × S)
  load_page upage page_read_bytes s =
      let got = l.palloc_get_page s in
      elim got.0 [
        | none ↦ ok (false, got.1)
        | some kpage ↦ fill_page kpage upage page_read_bytes got.1
      ]

  -- The loop, with a bound on its rounds.
  unfoldable pub load_loop : (fuel upage read_bytes zero_bytes : ℕ) → S → Run (Bool × S)
  load_loop zero upage read_bytes zero_bytes s = out_of_fuel
  load_loop (suc fuel) upage read_bytes zero_bytes s =
      let page_read_bytes = if ltb read_bytes pgsize then read_bytes else pgsize in
      let page_zero_bytes = pgsize - page_read_bytes in
      let rest =
        load_loop fuel ((upage + pgsize) % 2 ^ 32) (read_bytes - page_read_bytes)
          ((zero_bytes + 2 ^ 32 - page_zero_bytes) % 2 ^ 32) in
      if ltb 0 read_bytes || ltb 0 zero_bytes
      then (load_page upage page_read_bytes s >>= λ r. if r.0 then rest r.1 else ok r)
      else ok (true, s)

  -- A page takes in at least a byte of the two counts, so that their sum and one more rounds are enough.
  unfoldable pub load_segment : (ofs upage read_bytes zero_bytes : ℕ) → S → Run (Bool × S)
  load_segment ofs upage read_bytes zero_bytes s =
      assert ((read_bytes + zero_bytes) % 2 ^ 32 % pgsize == 0)
      >> assert (pg_ofs upage == 0)
      >> assert (ofs % pgsize == 0)
      >> load_loop ((read_bytes + zero_bytes) / pgsize + 1) upage read_bytes zero_bytes
          (l.file_seek ofs s)

-- The case PT_LOAD of `load`.
unfoldable pub load_phdr : {S : Type 0} → Loader S → Phdr → ℕ → S → Run (Bool × S)
load_phdr l phdr file_length s =
    if validate_segment phdr file_length
    then load_segment l (not (phdr.p_flags / 2 % 2 == 0)) (phdr.p_offset - pg_ofs phdr.p_offset)
        (phdr.p_vaddr - pg_ofs phdr.p_vaddr) (read_bytes phdr) (zero_bytes phdr) s
    else ok (false, s)
