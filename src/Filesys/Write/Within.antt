-- ===== src/Filesys/Write/Within.antt =====
-- `inode_write_at` on files in the direct sectors: writes within the file, and past its end.
use project2_group.Base.{
  ℕ, zero, suc, ◌+◌, ◌-◌, ◌≤◌, ◌<◌, ◌≡◌, refl, sym, ap, ◌∙◌, subst, inl, inr, true, List, some, ok,
  leb, ltb, ◌==◌, ◌&&◌, if◌then◌else◌, Bool-cases, length, get_or, take, arith, slice, slice-congr,
  take-drop-slice,
}
use project2_group.Devices.Block.{Block, IsDisk}
use project2_group.Filesys.Inode.{Inode, inode_length, again, inode_read_at}
use project2_group.Filesys.Inode.Layout.{IsDirect, byte_at}
use project2_group.Filesys.Inode.Read.{chunk, inode_read_at_within}
use project2_group.Filesys.State.{Fs}
use project2_group.Filesys.Write.{Allocator, WriteState, write_round, write_loop, inode_write_at}
use project2_group.Filesys.Write.Chunk.{IsWritten, moved, write_round-Wrote}

IsWritten-refl :
    (inode : Inode) (buffer : List ℕ) (start lo hi : ℕ) (dev : Block)
    → IsDisk dev
    → hi ≤ lo
    → IsWritten inode buffer start lo hi dev dev
IsWritten-refl inode buffer start lo hi dev disk h = record {
  disk = disk;
  same_size = refl;
  bytes = λ k h'. ground arith;
  others = λ t o. refl;
}

-- Adjacent writes make one.
IsWritten-trans :
    {inode : Inode} {buffer : List ℕ} {start lo mid hi : ℕ} {a b c : Block}
    → lo ≤ mid
    → mid ≤ hi
    → IsWritten inode buffer start lo mid a b
    → IsWritten inode buffer start mid hi b c
    → IsWritten inode buffer start lo hi a c
IsWritten-trans h k v w = record {
  disk = w.disk;
  same_size = w.same_size ∙ v.same_size;
  bytes = λ i h'. ground (arith, w.bytes i, v.bytes i);
  others = λ t o. w.others t o ∙ v.others t o;
}

-- The call for `count` sectors finds them, also once other contents have been written to the device.
abbrev pub Gives : Allocator → ℕ → Fs → Type 0
Gives alloc count fs =
    (dev : Block)
    → IsDisk dev
    → dev.size ≡ fs.dev.size
    → (t : ℕ) × (fs' : Fs) × (alloc count (record fs { dev = dev }) ≡ ok (some t, fs'))

module _ (alloc : Allocator) (inode : Inode) (buffer : List ℕ) (start : ℕ) where
  round_from :
      (s : WriteState)
      → IsDisk s.fs.dev
      → IsDirect s.fs.dev.size inode
      → s.offset < inode_length inode
      → 0 < s.size
      → s.bytes_written + s.size ≤ length buffer
      → start + s.bytes_written ≡ s.offset
      → (dev : Block) × (write_round alloc true inode buffer s
          ≡ ok (again (moved s dev (chunk inode s.size s.offset))))
        × IsWritten inode buffer start s.offset
            (s.offset + chunk inode s.size s.offset)
            s.fs.dev
            dev
  round_from s disk layout h k enough e =
      let (dev, q, w) =
        write_round-Wrote inode buffer s disk layout h k enough (omega arith) alloc in
      let e' : s.offset - s.bytes_written ≡ start = omega arith in
      (
        dev,
        q,
        subst
            (λ b.
              IsWritten inode buffer b s.offset (s.offset + chunk inode s.size s.offset) s.fs.dev
                dev)
            e' w,
      )

  write_loop_within :
      (fuel : ℕ) (s : WriteState)
      → IsDisk s.fs.dev
      → IsDirect s.fs.dev.size inode
      → s.offset + s.size ≤ inode_length inode
      → s.bytes_written + s.size ≤ length buffer
      → start + s.bytes_written ≡ s.offset
      → s.size < fuel
      → (dev : Block) × (write_loop fuel alloc true inode buffer s
          ≡ ok (s.bytes_written + s.size, record s.fs { dev = dev }))
        × IsWritten inode buffer start s.offset (s.offset + s.size) s.fs.dev dev
  unfolding write_loop
  write_loop_within zero s disk layout h enough e k = absurd (omega arith)
  write_loop_within (suc fuel) s disk layout h enough e k = elim (Bool-cases (s.size == 0)) [
    | inl done ↦ (
      s.fs.dev,
      rw done (ap (λ n. ok (n, s.fs)) (ground arith)),
      IsWritten-refl inode buffer start s.offset (s.offset + s.size) s.fs.dev disk (ground arith),
    )
    | inr more ↦
        let (dev, q, w) = round_from s disk layout (ground arith) (ground arith) enough e in
        let progress : 0 < chunk inode s.size s.offset = ground arith in
        let within : chunk inode s.size s.offset ≤ s.size = ground arith in
        let layout' = subst (λ n. IsDirect n inode) (sym w.same_size) layout in
        let (dev', q', w') =
          write_loop_within fuel (moved s dev (chunk inode s.size s.offset)) w.disk layout'
            (omega arith) (omega arith) (omega arith) (omega arith) in
        (
          dev',
          rw (more, q) (q' ∙ ap (λ n. ok (n, record s.fs { dev = dev' })) (omega arith)),
          IsWritten-trans (omega arith) (omega arith) w (
              subst
                (λ hi.
                  IsWritten inode buffer start (s.offset + chunk inode s.size s.offset) hi dev dev')
                (omega arith) w'),
        )
  ]

  -- What is left to write, and what is written, when the loop comes to the end of the file.
  abbrev left_over : WriteState → ℕ
  left_over s = s.offset + s.size - inode_length inode

  abbrev written : WriteState → ℕ
  written s = s.bytes_written + (inode_length inode - s.offset)

module _ (alloc : Allocator) (inode : Inode) (fs : Fs) (buffer : List ℕ) (n offset : ℕ) where
  -- With memory for `calloc` and the bounce buffer, a write within a file in the direct sectors that
  -- nobody denies, from a buffer that is long enough, returns the number of bytes asked for. On the device the bytes from
  -- `offset` on are those of the buffer, the other bytes of the file and all sectors that are not the
  -- file's are as before. The free map is not touched, whatever the allocator.
  pub inode_write_at_within :
      IsDisk fs.dev
      → IsDirect fs.dev.size inode
      → inode.deny_write_cnt ≡ 0
      → offset + n ≤ inode_length inode
      → n ≤ length buffer
      → (dev : Block) × (inode_write_at alloc true true inode fs buffer n offset
          ≡ ok (n, record fs { dev = dev }))
        × IsWritten inode buffer offset offset (offset + n) fs.dev dev
  unfolding inode_write_at
  inode_write_at_within disk layout allowed h enough =
      let (dev, q, w) =
        write_loop_within alloc inode buffer offset (n + 1)
          (record { fs = fs; size = n; offset = offset; bytes_written = 0 }) disk layout h
          (omega arith) (omega arith) (omega arith) in
      let open_to_writes : (inode.deny_write_cnt == 0) ≡ true = ground arith in
      (dev, rw open_to_writes (q ∙ ap (λ m. ok (m, record fs { dev = dev })) (omega arith)), w)

  from_buffer :
      (dev : Block) (i : ℕ)
      → i < n
      → (if leb offset (offset + i) && ltb (offset + i) (offset + n)
          then get_or buffer (offset + i - offset) 0
          else byte_at fs.dev.store inode (offset + i))
        ≡ get_or buffer (0 + i) 0
  from_buffer dev i k =
      let inside : (leb offset (offset + i) && ltb (offset + i) (offset + n)) ≡ true =
        ground arith in
      rw inside (ap (λ j. get_or buffer j 0) (omega arith))

  -- Under the conditions of a write within the file, the write succeeds, and a read of the same bytes
  -- after it returns their number and gives what was written.
  pub read-write :
      IsDisk fs.dev
      → IsDirect fs.dev.size inode
      → inode.deny_write_cnt ≡ 0
      → offset + n ≤ inode_length inode
      → n ≤ length buffer
      → (fs' : Fs) × (r : ℕ) × (inode_write_at alloc true true inode fs buffer n offset
          ≡ ok (n, fs'))
        × (inode_read_at true inode fs'.dev n offset
            ≡ ok (n, take n buffer, record fs'.dev { read_cnt = r }))
  read-write disk layout allowed h enough =
      let (dev, q, w) = inode_write_at_within disk layout allowed h enough in
      let layout' = subst (λ m. IsDirect m inode) (sym w.same_size) layout in
      let (r, q') = inode_read_at_within inode dev n offset w.disk layout' h in
      let same : slice (byte_at dev.store inode) offset n ≡ take n buffer =
        slice-congr (byte_at dev.store inode) (λ i. get_or buffer i 0) n offset 0
          (λ i k. w.bytes (offset + i) (omega arith) ∙ from_buffer dev i k)
        ∙ sym (take-drop-slice buffer 0 0 n (omega arith)) in
      (
        record fs { dev = dev },
        r,
        q,
        q' ∙ ap (λ out. ok (n, out, record dev { read_cnt = r })) same,
      )
