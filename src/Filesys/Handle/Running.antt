-- ===== src/Filesys/Handle/Running.antt =====
-- A file that a process runs: writes to it are denied until it is closed.
use project2_group.Base.{
  ℕ, ◌+◌, ◌≤◌, ◌<◌, ◌≡◌, refl, sym, ap, ◌∙◌, subst, inl, inr, Bool, true, Option, some, List, [],
  ◌∷◌, Run, ok, ◌>>=◌, ◌==◌, arith, Bool-cases, Option-cases, if◌then◌else◌, some-injective,
  ok-injective, ==_iff,
}
use mathlib.Core.Path.{ap₂}
use project2_group.Filesys.Inode.{Inode}
use project2_group.Filesys.Write.{Allocator}
use project2_group.Filesys.Open.{
  Table, at, store, initialized, find_sector, inode_open, inode_close,
}
use project2_group.Filesys.Open.Lookup.{
  IsTable, find-at, at-store, open-none, open-some, open-new, reopen-at,
}
use project2_group.Filesys.Open.Closing.{inode_close-inode_open, inode_allow_write-inode_deny_write}
use project2_group.Filesys.Handle.{
  OpenFile, new_file, file_open, file_deny_write, file_allow_write, file_close,
}

-- While the file `f` is open with writes denied, in the table `t'` that comes from `t`.
pub record Running (q : ℕ) (f : OpenFile) (t t' : Table) : Type 0 where
  pub same_inode : f.inode ≡ q
  pub again : file_deny_write f t' ≡ ok (f, t')
  pub denied : (i : Inode) × (at f.inode t'.open_inodes ≡ some i) × (0 < i.deny_write_cnt)
  pub allowed : file_allow_write f t' ≡ ok (new_file f.inode, t)
  pub closed :
      (alloc : Allocator) (calloc bounce : Bool)
      → file_close alloc calloc bounce (some f) t' ≡ inode_close alloc calloc bounce f.inode t

-- A file that was just opened on an inode with more openers than denials of writes: `file_deny_write` succeeds;
-- the inode then has a denial; a second call changes nothing; `file_allow_write` gives back the file and the
-- table as they were; and `file_close` does what closing the inode would have done before the denial.
pub file_deny_write_lem :
    (q : ℕ) (t : Table) (i : Inode)
    → at q t.open_inodes ≡ some i
    → i.deny_write_cnt < i.open_cnt
    → (f : OpenFile) × (t' : Table) × (file_deny_write (new_file q) t ≡ ok (f, t'))
      × Running q f t t'
unfolding file_deny_write file_allow_write file_close
file_deny_write_lem q t i a h =
    let d = inode_allow_write-inode_deny_write q t i a h in
    let f : OpenFile = record { inode = q; pos = 0; deny_write = true } in
    (
      f,
      d.0,
      rw d.2 refl,
      record {
        same_inode = refl;
        again = refl;
        denied = (d.1, d.3, d.4);
        allowed = rw d.5 refl;
        closed = λ alloc calloc bounce. rw d.5 refl;
      },
    )

at-denials :
    (q : ℕ) (l : List (ℕ × Inode)) (i : Inode)
    → IsTable l
    → at q l ≡ some i
    → i.deny_write_cnt ≤ i.open_cnt
unfolding at
at-denials q [] i w e = cc
at-denials q ((p, j) ∷ l) i w e = elim (Bool-cases (p == q)) [
  | inl h ↦
      let same : j ≡ i =
        some-injective (subst (λ b. (if b then some j else at q l) ≡ some i) h e) in
      subst (λ x. x.deny_write_cnt ≤ x.open_cnt) same w.1
  | inr h ↦ at-denials q l i w.4 (subst (λ b. (if b then some j else at q l) ≡ some i) h e)
]

-- An inode that was just opened has more openers than denials.
open_room :
    (p sector : ℕ) (t : Table)
    → IsTable t.open_inodes
    → sector < t.fs.dev.size
    → (q : ℕ) × (t' : Table) × (i : Inode) × (inode_open (some p) sector t ≡ ok (some q, t'))
      × (at q t'.open_inodes ≡ some i)
      × (i.deny_write_cnt < i.open_cnt)
unfolding at
open_room p sector t w h = elim (Option-cases (find_sector sector t.open_inodes)) [
  | inl e ↦ (
    p,
    record {
      fs = record t.fs { dev = record t.fs.dev { read_cnt = t.fs.dev.read_cnt + 1 } };
      open_inodes = (p, initialized sector (t.fs.dev.store sector)) ∷ t.open_inodes;
    },
    initialized sector (t.fs.dev.store sector),
    open-none (some p) sector t e ∙ open-new p sector t h,
    rw ((==_iff p p).1 refl) refl,
    omega arith,
  )
  | inr (q, e) ↦
      let (i, a, s, o) = find-at sector t.open_inodes q w e in
      let d = at-denials q t.open_inodes i w a in
      let i' : Inode = record i { open_cnt = i.open_cnt + 1 } in
      (
        q,
        record t { open_inodes = store q i' t.open_inodes },
        i',
        open-some (some p) sector q t e
            ∙ ap {A = Run Table} {B = Run (Option ℕ × Table)} (λ m. m >>= λ t'. ok (some q, t'))
                (reopen-at q t i a),
        at-store q t.open_inodes i i' a,
        omega arith,
      )
]

same_result :
    {q q' : ℕ} {t t' : Table}
    → ◌≡◌ {A = Run (Option ℕ × Table)} (ok (some q, t)) (ok (some q', t'))
    → (q ≡ q') × (t ≡ t')
same_result e = let p = ok-injective e in (some-injective (ap (λ r. r.0) p), ap (λ r. r.1) p)

-- In a table in order, with an address from `malloc` and a sector on the device: opening the inode of the sector and a
-- file on it and denying writes succeed; the inode then has a denial of writes; and `file_close` succeeds and leaves
-- the table as it was before the inode was opened, but for the count of reads of the device.
pub file_close-file_open :
    (alloc : Allocator) (calloc bounce : Bool) (p sector : ℕ) (t : Table)
    → IsTable t.open_inodes
    → sector < t.fs.dev.size
    → (q : ℕ) × (t₁ : Table) × (f : OpenFile) × (t₂ : Table) × (r : ℕ) × (inode_open
          (some p)
          sector
          t
        ≡ ok (some q, t₁))
      × (file_open alloc calloc bounce true (some q) t₁ ≡ ok (some (new_file q), t₁))
      × (file_deny_write (new_file q) t₁ ≡ ok (f, t₂))
      × ((i : Inode) × (at f.inode t₂.open_inodes ≡ some i) × (0 < i.deny_write_cnt))
      × (file_close alloc calloc bounce (some f) t₂
          ≡ ok (record t { fs = record t.fs { dev = record t.fs.dev { read_cnt = r } } }))
unfolding file_open
file_close-file_open alloc calloc bounce p sector t w h =
    let o = open_room p sector t w h in
    let c = inode_close-inode_open alloc calloc bounce p sector t w h in
    let q = o.0 in
    let t₁ = o.1 in
    let d = file_deny_write_lem q t₁ o.2 o.4 o.5 in
    let same = same_result (sym o.3 ∙ c.3) in
    (
      q,
      t₁,
      d.0,
      d.1,
      c.2,
      o.3,
      refl,
      d.2,
      d.3.denied,
      d.3.closed alloc calloc bounce
          ∙ ap₂ (inode_close alloc calloc bounce) (d.3.same_inode ∙ same.0) same.1
          ∙ c.4,
    )
