-- ===== src/Filesys/Inode/Read.antt =====
-- `inode_read_at` on files in the direct sectors.
use project2_group.Base.{
  ℕ, zero, suc, ◌+◌, ◌-◌, ◌/◌, ◌%◌, ◌≤◌, ◌<◌, ◌≡◌, refl, sym, ap, ◌∙◌, inl, inr, true, false, List,
  [], ◌++◌, Run, ok, ltb, ◌==◌, ◌&&◌, le→leb, length, arith, Bool-cases, slice, slice-append,
  slice-congr, take-drop-slice, take, drop,
}
use mathlib.Core.Path.{ap₂}
use mathlib.Core.List.{append_assoc, append-nil}
use project2_group.Base.{gt→leb, take-length, subst}
use project2_group.Devices.Block.{Block, IsDisk, block_read-ok}
use project2_group.Filesys.Inode.{
  Inode, inode_length, lesser, read_loop, read_round, ReadState, ReadResult, Round, again, leave,
  advance, inode_read_at,
}
use project2_group.Filesys.Inode.Layout.{
  IsDirect, byte_at, sector_at, byte_to_sector-direct, direct_bytes,
}

-- The bytes that one round copies.
abbrev pub chunk : Inode → ℕ → ℕ → ℕ
chunk inode size offset = lesser size (lesser (inode_length inode - offset) (512 - offset % 512))

-- The bytes of a chunk, out of the sector that holds them.
sector-slice :
    (store : ℕ → List ℕ) (inode : Inode) (offset n : ℕ)
    → length (store (sector_at inode (offset / 512))) ≡ 512
    → offset % 512 + n ≤ 512
    → take n (drop (offset % 512) (store (sector_at inode (offset / 512))))
      ≡ slice (byte_at store inode) offset n
unfolding byte_at
sector-slice store inode offset n full h =
    take-drop-slice (store (sector_at inode (offset / 512))) 0 (offset % 512) n (omega arith)
    ∙ slice-congr _ _ n (offset % 512) offset λ i k.
      let e : (offset + i) / 512 ≡ offset / 512 = omega arith in
      let e' : (offset + i) % 512 ≡ offset % 512 + i = omega arith in rw (e, e')

-- A full sector is a chunk too.
whole-slice :
    (store : ℕ → List ℕ) (inode : Inode) (offset n : ℕ)
    → length (store (sector_at inode (offset / 512))) ≡ 512
    → ((offset % 512 == 0) && (n == 512)) ≡ true
    → store (sector_at inode (offset / 512)) ≡ slice (byte_at store inode) offset n
whole-slice store inode offset n full h =
    let start : offset % 512 ≡ 0 = ground arith in
    let whole : n ≡ 512 = ground arith in
    let bytes = store (sector_at inode (offset / 512)) in
    sym (take-length 512 bytes full)
    ∙ subst (λ o. take 512 bytes ≡ take 512 (drop o bytes)) (sym start) refl
    ∙ sector-slice store inode offset 512 full (omega arith)
    ∙ ap (slice (byte_at store inode) offset) (sym whole)

module _ (inode : Inode) (size : ℕ) (layout : IsDirect size inode) where
  abbrev next_state : ReadState → ReadState
  next_state s = record {
    dev = record s.dev { read_cnt = s.dev.read_cnt + 1 };
    out = s.out ++ slice (byte_at s.dev.store inode) s.offset (chunk inode s.size s.offset);
    size = s.size - chunk inode s.size s.offset;
    offset = s.offset + chunk inode s.size s.offset;
    bytes_read = s.bytes_read + chunk inode s.size s.offset;
  }

  read_round-direct :
      (s : ReadState)
      → IsDisk s.dev
      → s.dev.size ≡ size
      → s.offset < inode_length inode
      → 0 < s.size
      → read_round true inode s ≡ ok (again (next_state s))
  unfolding read_round
  read_round-direct s disk e h k =
      rw
        (
          byte_to_sector-direct s.dev inode s.offset layout.pointers (omega (arith, layout.short)),
          block_read-ok s.dev (sector_at inode (s.offset / 512))
              (omega (arith, layout.placed (s.offset / 512))),
          gt→leb (inode_length inode) s.offset h,
          some_bytes,
        )
        (elim (Bool-cases ((s.offset % 512 == 0) && (n == 512))) [
          | inl whole ↦
              rw whole (ap result (whole-slice s.dev.store inode s.offset n (disk.full _) whole))
          | inr part ↦
              rw part
                (ap result (sector-slice s.dev.store inode s.offset n (disk.full _) (ground arith)))
        ])
    where
      n : ℕ
      n = chunk inode s.size s.offset

      some_bytes : (n == 0) ≡ false
      some_bytes = ground arith

      result : List ℕ → Run (Round ReadState ReadResult)
      result bytes = ok (advance s (record s.dev { read_cnt = s.dev.read_cnt + 1 }) bytes n)

  same-IsDisk : {dev : Block} (r : ℕ) → IsDisk dev → IsDisk (record dev { read_cnt = r })
  same-IsDisk r d = record { full = d.full; ours = d.ours }

  -- What is read in one round and what the later rounds read.
  out_regroup :
      (s : ReadState) (m : ℕ)
      → chunk inode s.size s.offset ≤ m
      → (next_state s).out
          ++ slice
              (byte_at s.dev.store inode)
              (next_state s).offset
              (m - chunk inode s.size s.offset)
        ≡ s.out ++ slice (byte_at s.dev.store inode) s.offset m
  out_regroup s m h =
      append_assoc s.out _ _
      ∙ ap (◌++◌ s.out) (
          slice-append (byte_at s.dev.store inode) n (m - n) s.offset (s.offset + n) refl
          ∙ ap (slice (byte_at s.dev.store inode) s.offset) total)
    where
      n : ℕ
      n = chunk inode s.size s.offset

      total : n + (m - n) ≡ m
      total = omega arith

  finish :
      {m m' : ℕ} {out out' : List ℕ} (dev : Block)
      → m ≡ m'
      → out ≡ out'
      → ◌≡◌ {A = Run ReadResult} (ok (m, out, dev)) (ok (m', out', dev))
  finish dev e e' = ap₂ (λ m out. ok (m, out, dev)) e e'

  some_progress :
      (s : ReadState) → s.offset < inode_length inode → 0 < s.size → (next_state s).size < s.size
  some_progress s h k = ground arith

  read_loop_within :
      (fuel : ℕ) (s : ReadState)
      → IsDisk s.dev
      → s.dev.size ≡ size
      → s.offset + s.size ≤ inode_length inode
      → s.size < fuel
      → (r : ℕ) × (read_loop fuel true inode s
          ≡ ok (
            s.bytes_read + s.size,
            s.out ++ slice (byte_at s.dev.store inode) s.offset s.size,
            record s.dev { read_cnt = r },
          ))
  unfolding read_loop
  read_loop_within zero s disk e h k = absurd (omega arith)
  read_loop_within (suc fuel) s disk e h k = elim (Bool-cases (s.size == 0)) [
    | inl done ↦
        let none_left : 0 ≡ s.size = ground arith in
        (
          s.dev.read_cnt,
          rw done (
              finish s.dev (omega arith) (
                sym (append-nil s.out)
                ∙ ap (λ m. s.out ++ slice (byte_at s.dev.store inode) s.offset m) none_left)),
        )
    | inr more ↦
        let (r, q) =
          read_loop_within fuel (next_state s) (same-IsDisk (s.dev.read_cnt + 1) disk) e
            (ground arith) (omega (arith, some_progress s (ground arith) (ground arith))) in
        (
          r,
          rw (more, read_round-direct s disk e (ground arith) (ground arith))
              (q
                ∙ finish (record s.dev { read_cnt = r }) (ground arith)
                    (out_regroup s s.size (ground arith))),
        )
  ]

  -- At the end of the file the function returns 0.
  read_round_end :
      (s : ReadState)
      → inode_length inode < direct_bytes
      → s.offset ≡ inode_length inode
      → read_round true inode s ≡ ok (leave (0, s.out, s.dev))
  unfolding read_round
  read_round_end s short h = rw (
    byte_to_sector-direct s.dev inode s.offset layout.pointers (omega arith),
    le→leb (inode_length inode) s.offset (omega arith),
  )

  -- A read that reaches the end of the file.
  read_loop_past_end :
      (fuel : ℕ) (s : ReadState)
      → IsDisk s.dev
      → s.dev.size ≡ size
      → inode_length inode < direct_bytes
      → s.offset ≤ inode_length inode
      → inode_length inode < s.offset + s.size
      → s.size < fuel
      → (r : ℕ) × (read_loop fuel true inode s
          ≡ ok (
            0,
            s.out ++ slice (byte_at s.dev.store inode) s.offset (inode_length inode - s.offset),
            record s.dev { read_cnt = r },
          ))
  unfolding read_loop
  read_loop_past_end zero s disk e short h over k = absurd (omega arith)
  read_loop_past_end (suc fuel) s disk e short h over k =
      let more : (s.size == 0) ≡ false = ground arith in
      elim (Bool-cases (ltb s.offset (inode_length inode))) [
        | inl inside ↦
            let left : inode_length inode - (s.offset + chunk inode s.size s.offset)
                ≡ inode_length inode - s.offset - chunk inode s.size s.offset =
              omega arith in
            let (r, q) =
              read_loop_past_end fuel (next_state s) (same-IsDisk (s.dev.read_cnt + 1) disk) e short
                (ground arith) (ground arith)
                (omega (arith, some_progress s (ground arith) (ground arith))) in
            (
              r,
              rw (more, read_round-direct s disk e (ground arith) (ground arith))
                  (q
                    ∙ finish (record s.dev { read_cnt = r }) refl
                        (ap
                            (λ m.
                              (next_state s).out
                              ++ slice (byte_at s.dev.store inode) (next_state s).offset m)
                            left
                          ∙ out_regroup s (inode_length inode - s.offset) (ground arith))),
            )
        | inr at_end ↦
            let none_left : 0 ≡ inode_length inode - s.offset = ground arith in
            (
              s.dev.read_cnt,
              rw (more, read_round_end s short (ground arith))
                  (finish s.dev refl (
                    sym (append-nil s.out)
                    ∙ ap (λ m. s.out ++ slice (byte_at s.dev.store inode) s.offset m) none_left)),
            )
      ]

-- With memory for the bounce buffer, and within a file in the direct sectors of a disk, `inode_read_at` returns the number of bytes asked for, leaves
-- them in the buffer, and changes nothing on the device but its count of reads.
pub inode_read_at_within :
    (inode : Inode) (dev : Block) (n offset : ℕ)
    → IsDisk dev
    → IsDirect dev.size inode
    → offset + n ≤ inode_length inode
    → (r : ℕ) × (inode_read_at true inode dev n offset
        ≡ ok (n, slice (byte_at dev.store inode) offset n, record dev { read_cnt = r }))
unfolding inode_read_at
inode_read_at_within inode dev n offset disk layout h =
    let (r, q) =
      read_loop_within inode dev.size layout (n + 1)
        (record { dev = dev; out = []; size = n; offset = offset; bytes_read = 0 }) disk refl h
        (omega arith) in
    (r, q ∙ finish inode dev.size layout (record dev { read_cnt = r }) (omega arith) refl)

-- With memory for the bounce buffer, on a file in the direct sectors that is shorter than the 62976 bytes they hold:
-- a read that starts within the file, or at its end, and asks for bytes past the end copies the bytes up to the end
-- into the buffer but returns 0, not their number.
pub inode_read_at_past_end :
    (inode : Inode) (dev : Block) (n offset : ℕ)
    → IsDisk dev
    → IsDirect dev.size inode
    → inode_length inode < direct_bytes
    → offset ≤ inode_length inode
    → inode_length inode < offset + n
    → (r : ℕ) × (inode_read_at true inode dev n offset
        ≡ ok (
          0,
          slice (byte_at dev.store inode) offset (inode_length inode - offset),
          record dev { read_cnt = r },
        ))
unfolding inode_read_at
inode_read_at_past_end inode dev n offset disk layout short h over =
    read_loop_past_end inode dev.size layout (n + 1)
      (record { dev = dev; out = []; size = n; offset = offset; bytes_read = 0 }) disk refl short h
      over (omega arith)
