-- ===== src/Filesys/Open/Closing.antt =====
-- Opening and closing are inverse, and so are denying and allowing writes.
use project2_group.Base.{
  ℕ, ◌+◌, ◌-◌, ◌<◌, ◌≡◌, refl, ap, ◌∙◌, inl, inr, Bool, true, false, Option, some, List, ◌∷◌, Run,
  ok, ◌>>=◌, ltb, ◌==◌, arith, Option-cases, ==_iff, le→leb,
}
use project2_group.Filesys.Inode.{Inode}
use project2_group.Filesys.Write.{Allocator}
use project2_group.Filesys.Open.{
  Table, initialized, find_sector, at, store, unlink, inode_open, release_blocks, inode_close,
  inode_deny_write, inode_allow_write,
}
use project2_group.Filesys.Open.Lookup.{
  IsTable, find-at, at-store, store-store, open-none, open-some, open-new, reopen-at,
}

-- In a table in order, with an address from `malloc` and a sector on the device, `inode_open` succeeds, and
-- `inode_close` of the inode that it gives succeeds and takes back everything but the count of reads of
-- the device.
pub inode_close-inode_open :
    (alloc : Allocator) (calloc bounce : Bool) (p sector : ℕ) (t : Table)
    → IsTable t.open_inodes
    → sector < t.fs.dev.size
    → (q : ℕ) × (t' : Table) × (r : ℕ) × (inode_open (some p) sector t ≡ ok (some q, t'))
      × (inode_close alloc calloc bounce q t'
          ≡ ok (record t { fs = record t.fs { dev = record t.fs.dev { read_cnt = r } } }))
unfolding inode_close release_blocks at unlink
inode_close-inode_open alloc calloc bounce p sector t w h =
    elim (Option-cases (find_sector sector t.open_inodes)) [
      | inl e ↦
          let self : (p == p) ≡ true = (==_iff p p).1 refl in
          (
            p,
            record {
              fs = record t.fs { dev = record t.fs.dev { read_cnt = t.fs.dev.read_cnt + 1 } };
              open_inodes = (p, initialized sector (t.fs.dev.store sector)) ∷ t.open_inodes;
            },
            t.fs.dev.read_cnt + 1,
            open-none (some p) sector t e ∙ open-new p sector t h,
            rw self refl,
          )
      | inr (q, e) ↦
          let (i, a, _, pos) = find-at sector t.open_inodes q w e in
          let more : (i.open_cnt + 1 == 1) ≡ false = ground (arith, pos) in
          let i' : Inode = record i { open_cnt = i.open_cnt + 1 } in
          let back : i'.open_cnt - 1 ≡ i.open_cnt = omega arith in
          (
            q,
            record t { open_inodes = store q i' t.open_inodes },
            t.fs.dev.read_cnt,
            open-some (some p) sector q t e
                ∙ ap {A = Run Table} {B = Run (Option ℕ × Table)} (λ m. m >>= λ t'. ok (some q, t'))
                    (reopen-at q t i a),
            rw (at-store q t.open_inodes i i' a, more, back)
                (ap {A = List (ℕ × Inode)} {B = Run Table} (λ l. ok (record t { open_inodes = l }))
                  (store-store q t.open_inodes i i' a)),
          )
    ]

-- For an open inode with more openers than denials of writes, denying writes and allowing them again both
-- succeed and leave the table as it was; between them its count of denials is positive.
pub inode_allow_write-inode_deny_write :
    (q : ℕ) (t : Table) (i : Inode)
    → at q t.open_inodes ≡ some i
    → i.deny_write_cnt < i.open_cnt
    → (t' : Table) × (i' : Inode) × (inode_deny_write q t ≡ ok t')
      × (at q t'.open_inodes ≡ some i')
      × (0 < i'.deny_write_cnt)
      × (inode_allow_write q t' ≡ ok t)
unfolding inode_deny_write inode_allow_write
inode_allow_write-inode_deny_write q t i a h =
    let i' : Inode = record i { deny_write_cnt = i.deny_write_cnt + 1 } in
    let back : i'.deny_write_cnt - 1 ≡ i.deny_write_cnt = omega arith in
    let positive : ltb 0 i'.deny_write_cnt ≡ true = ground arith in
    (
      record t { open_inodes = store q i' t.open_inodes },
      i',
      rw (a, le→leb (i.deny_write_cnt + 1) i.open_cnt (omega arith)) refl,
      at-store q t.open_inodes i i' a,
      omega arith,
      rw
          (
            at-store q t.open_inodes i i' a,
            positive,
            le→leb (i.deny_write_cnt + 1) i.open_cnt (omega arith),
            back,
          )
          (ap {A = List (ℕ × Inode)} {B = Run Table} (λ l. ok (record t { open_inodes = l }))
            (store-store q t.open_inodes i i' a)),
    )
