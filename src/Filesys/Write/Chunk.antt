-- ===== src/Filesys/Write/Chunk.antt =====
-- One round of `inode_write_at` within a file in the direct sectors: the bytes of the chunk are
-- written, and no others.
use project2_group.Base.{
  ℕ, ◌+◌, ◌-◌, ◌*◌, ◌/◌, ◌%◌, ◌≤◌, ◌<◌, ◌≡◌, ◌≢◌, refl, sym, ap, ◌∙◌, inl, inr, true, false, List,
  Run, ok, leb, ltb, ◌==◌, ==_iff, ◌&&◌, ◌||◌, if◌then◌else◌, Bool-cases, gt→leb, length, get_or,
  take, drop, splice, arith, get_or-splice, get_or-take, get_or-drop, length-splice, length-take,
  length-drop,
}
use project2_group.Devices.Block.{
  Block, IsDisk, written, written-IsDisk, block_write-ok, block_read-ok,
}
use project2_group.Filesys.Inode.{Inode, inode_length, Round, again}
use project2_group.Filesys.Inode.Layout.{IsDirect, byte_at, sector_at, byte_to_sector-direct}
use project2_group.Filesys.Inode.Read.{chunk}
use project2_group.Filesys.Write.{Allocator, WriteState, WriteResult, write_chunk, write_round}

-- `new` is `old` with the bytes of the file from `lo` up to `hi` taken from `buffer`, whose first
-- byte stands for byte `start` of the file.
pub record IsWritten (inode : Inode) (buffer : List ℕ) (start lo hi : ℕ) (old new : Block)
    : Type 0 where
  pub disk : IsDisk new
  pub same_size : new.size ≡ old.size
  pub bytes :
      (k : ℕ)
      → k < inode_length inode
      → byte_at new.store inode k
        ≡ (if leb lo k && ltb k hi then get_or buffer (k - start) 0 else byte_at old.store inode k)
  pub others :
      (t : ℕ)
      → ((i : ℕ) → i * 512 < inode_length inode → sector_at inode i ≢ t)
      → new.store t ≡ old.store t

-- Replacing the sector of byte `offset` by `bytes`.
byte_at-written :
    (inode : Inode) (dev : Block) (offset k : ℕ) (bytes : List ℕ)
    → IsDirect dev.size inode
    → offset < inode_length inode
    → k < inode_length inode
    → byte_at (written dev (sector_at inode (offset / 512)) bytes).store inode k
      ≡ (if k / 512 == offset / 512 then get_or bytes (k % 512) 0 else byte_at dev.store inode k)
unfolding byte_at written
byte_at-written inode dev offset k bytes layout h h' =
    ground (arith, layout.apart (k / 512) (offset / 512))

-- The chunk at its place in the sector.
splice_bytes :
    (old buffer : List ℕ) (o d c j : ℕ)
    → length old ≡ 512
    → o + c ≤ 512
    → d + c ≤ length buffer
    → get_or (splice old o (take c (drop d buffer))) j 0
      ≡ (if leb o j && ltb j (o + c) then get_or buffer (d + (j - o)) 0 else get_or old j 0)
splice_bytes old buffer o d c j full h h' =
    let new = take c (drop d buffer) in
    let len : length new ≡ c = omega (arith, length-take c (drop d buffer), length-drop d buffer) in
    ground (
      arith,
      get_or-splice old o new j 0,
      get_or-take c (drop d buffer) (j - o) 0,
      get_or-drop d buffer (j - o) 0,
    )

module _ (inode : Inode) (dev : Block) (buffer : List ℕ) (offset d c : ℕ) where
  -- The new contents of the sector of byte `offset`.
  abbrev IsChunk : List ℕ → Type 0
  IsChunk bytes =
      (j : ℕ)
      → j < 512
      → get_or bytes j 0 ≡ (
          if leb (offset % 512) j && ltb j (offset % 512 + c)
          then get_or buffer (d + (j - offset % 512)) 0
          else get_or (dev.store (sector_at inode (offset / 512))) j 0)

  -- Within its sector the chunk lies at the same bytes as in the file.
  same_tests :
      (k : ℕ)
      → k / 512 ≡ offset / 512
      → (leb (offset % 512) (k % 512) && ltb (k % 512) (offset % 512 + c))
        ≡ (leb offset k && ltb k (offset + c))
  same_tests k e = ground arith

  same_sector :
      (k : ℕ)
      → k / 512 ≡ offset / 512
      → d ≤ offset
      → (if leb (offset % 512) (k % 512) && ltb (k % 512) (offset % 512 + c)
          then get_or buffer (d + (k % 512 - offset % 512)) 0
          else get_or (dev.store (sector_at inode (offset / 512))) (k % 512) 0)
        ≡ (if leb offset k && ltb k (offset + c)
            then get_or buffer (k - (offset - d)) 0
            else byte_at dev.store inode k)
  unfolding byte_at
  same_sector k e le = rw (same_tests k e) (elim (Bool-cases (leb offset k && ltb k (offset + c))) [
    | inl within ↦
        let index : d + (k % 512 - offset % 512) ≡ k - (offset - d) = ground arith in
        rw within (ap (λ i. get_or buffer i 0) index)
    | inr outside ↦
        rw outside (ap (λ q. get_or (dev.store (sector_at inode q)) (k % 512) 0) (sym e))
  ])

  IsChunk-IsWritten :
      (bytes : List ℕ)
      → IsDisk dev
      → IsDirect dev.size inode
      → offset < inode_length inode
      → offset % 512 + c ≤ 512
      → d ≤ offset
      → length bytes ≡ 512
      → IsChunk bytes
      → IsWritten inode buffer
          (offset - d)
          offset
          (offset + c)
          dev
          (written dev (sector_at inode (offset / 512)) bytes)
  unfolding written
  IsChunk-IsWritten bytes disk layout h fits le full is = record {
    disk = written-IsDisk (sector_at inode (offset / 512)) bytes disk full;
    same_size = refl;
    bytes = λ k h'. byte_at-written inode dev offset k bytes layout h h' ∙ in_file k;
    others = λ t other. ground (arith, other (offset / 512));
  }
    where
      in_file :
          (k : ℕ)
          → (if k / 512 == offset / 512
              then get_or bytes (k % 512) 0
              else byte_at dev.store inode k)
            ≡ (if leb offset k && ltb k (offset + c)
                then get_or buffer (k - (offset - d)) 0
                else byte_at dev.store inode k)
      in_file k = elim (Bool-cases (k / 512 == offset / 512)) [
        | inl same ↦ rw same (is (k % 512) (omega arith) ∙ same_sector k ((==_iff _ _).0 same) le)
        | inr other ↦ rw other (ground arith)
      ]

-- The count of reads does not matter.
IsWritten-reads :
    {inode : Inode} {buffer : List ℕ} {start lo hi : ℕ} {old new : Block} (r : ℕ)
    → IsWritten inode buffer start lo hi (record old { read_cnt = r }) new
    → IsWritten inode buffer start lo hi old new
IsWritten-reads r w = record {
  disk = w.disk;
  same_size = w.same_size;
  bytes = w.bytes;
  others = w.others;
}

reads-IsDisk : {dev : Block} {r : ℕ} → IsDisk dev → IsDisk (record dev { read_cnt = r })
reads-IsDisk d = record { full = d.full; ours = d.ours }

-- The state after a round that wrote `c` bytes.
abbrev pub moved : WriteState → Block → ℕ → WriteState
moved s dev c = record {
  fs = record s.fs { dev = dev };
  size = s.size - c;
  offset = s.offset + c;
  bytes_written = s.bytes_written + c;
}

module _ (inode : Inode) (buffer : List ℕ) (s : WriteState) where
  abbrev c : ℕ
  c = chunk inode s.size s.offset

  abbrev target : ℕ
  target = sector_at inode (s.offset / 512)

  abbrev new_bytes : List ℕ
  new_bytes = take c (drop s.bytes_written buffer)

  abbrev Wrote : Run (Round WriteState WriteResult) → Type 0
  Wrote r =
      (dev : Block) × (r ≡ ok (again (moved s dev c)))
      × IsWritten inode buffer (s.offset - s.bytes_written) s.offset (s.offset + c) s.fs.dev dev

  module _ (disk : IsDisk s.fs.dev) (layout : IsDirect s.fs.dev.size inode)
      (h : s.offset < inode_length inode) (some_left : 0 < s.size)
      (enough : s.bytes_written + s.size ≤ length buffer) (le : s.bytes_written ≤ s.offset) where
    fits : s.offset % 512 + c ≤ 512
    fits = ground arith

    c_le : c ≤ s.size
    c_le = ground arith

    new_length : length new_bytes ≡ c
    new_length = omega (
      arith,
      c_le,
      length-take c (drop s.bytes_written buffer),
      length-drop s.bytes_written buffer,
    )

    on_device : target < s.fs.dev.size
    on_device = layout.placed (s.offset / 512) (omega arith)

    whole_bytes :
        (j : ℕ)
        → j < 512
        → ((s.offset % 512 == 0) && (c == 512)) ≡ true
        → get_or new_bytes j 0 ≡ (
            if leb (s.offset % 512) j && ltb j (s.offset % 512 + c)
            then get_or buffer (s.bytes_written + (j - s.offset % 512)) 0
            else get_or (s.fs.dev.store target) j 0)
    whole_bytes j k whole =
        let inside : (leb (s.offset % 512) j && ltb j (s.offset % 512 + c)) ≡ true = ground arith in
        let index : s.bytes_written + j ≡ s.bytes_written + (j - s.offset % 512) = ground arith in
        get_or-take c (drop s.bytes_written buffer) j 0 (ground arith)
        ∙ get_or-drop s.bytes_written buffer j 0
        ∙ rw inside (ap (λ i. get_or buffer i 0) index)

    whole-Wrote :
        ((s.offset % 512 == 0) && (c == 512)) ≡ true
        → Wrote (write_chunk true buffer s target (s.offset % 512) (512 - s.offset % 512) c)
    unfolding write_chunk
    whole-Wrote whole = (
      written s.fs.dev target new_bytes,
      rw (whole, block_write-ok s.fs.dev target new_bytes disk on_device),
      IsChunk-IsWritten inode s.fs.dev buffer s.offset s.bytes_written c new_bytes disk layout h
          fits le (ground (arith, new_length)) (λ j k. whole_bytes j k whole),
    )

    part-Wrote :
        ((s.offset % 512 == 0) && (c == 512)) ≡ false
        → Wrote (write_chunk true buffer s target (s.offset % 512) (512 - s.offset % 512) c)
    unfolding write_chunk
    part-Wrote part =
        let keep : (ltb 0 (s.offset % 512) || ltb c (512 - s.offset % 512)) ≡ true = ground arith in
        let dev' = record s.fs.dev { read_cnt = s.fs.dev.read_cnt + 1 } in
        let old = s.fs.dev.store target in
        (
          written dev' target (splice old (s.offset % 512) new_bytes),
          rw (
            part,
            keep,
            block_read-ok s.fs.dev target on_device,
            block_write-ok dev' target (splice old (s.offset % 512) new_bytes) (reads-IsDisk disk)
                on_device,
          ),
          IsWritten-reads (s.fs.dev.read_cnt + 1) (
              IsChunk-IsWritten inode dev' buffer s.offset s.bytes_written c
                (splice old (s.offset % 512) new_bytes) (reads-IsDisk disk) layout h fits le
                (length-splice old (s.offset % 512) new_bytes (omega (arith, new_length, fits))
                  ∙ disk.full target)
                (λ j k.
                  splice_bytes old buffer (s.offset % 512) s.bytes_written c j (disk.full target)
                    fits (omega (arith, c_le)))),
        )

    -- One round within the file.
    pub write_round-Wrote : (alloc : Allocator) → Wrote (write_round alloc true inode buffer s)
    unfolding write_round
    write_round-Wrote alloc =
        rw
          (
            byte_to_sector-direct s.fs.dev inode s.offset layout.pointers
                (omega (arith, layout.short)),
            gt→leb (inode_length inode) s.offset h,
          )
          (elim (Bool-cases ((s.offset % 512 == 0) && (c == 512))) [
            | inl whole ↦ whole-Wrote whole
            | inr part ↦ part-Wrote part
          ])
