-- ===== src/Filesys/Open/Opening.antt =====
-- No sector is open twice.
use project2_group.Base.{
  some-injective, ℕ, ◌+◌, ◌<◌, ◌≡◌, refl, sym, ap, ◌∙◌, subst, inl, inr, Option, some, List, [],
  ◌∷◌, Run, ok, ◌>>=◌, ◌==◌, if◌then◌else◌, arith, Bool-cases, Option-cases, ==_iff,
}
use project2_group.Filesys.Inode.{Inode}
use project2_group.Filesys.Open.{Table, initialized, find_sector, at, store, inode_open}
use project2_group.Filesys.Open.Lookup.{
  Fresh, Shut, IsTable, find-at, find-Shut, at-store, open-none, open-some, open-new, reopen-at,
}

Fresh-store : (r q : ℕ) (x : Inode) (l : List (ℕ × Inode)) → Fresh r l → Fresh r (store q x l)
unfolding store
Fresh-store r q x [] f = tt
Fresh-store r q x ((p, i) ∷ l) f = elim (Bool-cases (p == q)) [
  | inl h ↦ rw h f
  | inr h ↦ rw h (f.0, Fresh-store r q x l f.1)
]

Shut-store :
    (s q : ℕ) (i x : Inode) (l : List (ℕ × Inode))
    → at q l ≡ some i
    → x.sector ≡ i.sector
    → Shut s l
    → Shut s (store q x l)
unfolding store at
Shut-store s q i x [] a e f = tt
Shut-store s q i x ((p, j) ∷ l) a e f = elim (Bool-cases (p == q)) [
  | inl h ↦
      let same : j ≡ i =
        some-injective (subst (λ b. (if b then some j else at q l) ≡ some i) h a) in
      rw h ((λ d. f.0 (ap (λ y. y.sector) same ∙ sym e ∙ d)), f.1)
  | inr h ↦
      rw h
        (f.0, Shut-store s q i x l (subst (λ b. (if b then some j else at q l) ≡ some i) h a) e f.1)
]

-- Counting an opener keeps the table in order.
reopened-IsTable :
    (q : ℕ) (i : Inode) (l : List (ℕ × Inode))
    → at q l ≡ some i
    → IsTable l
    → IsTable (store q (record i { open_cnt = i.open_cnt + 1 }) l)
unfolding store at
reopened-IsTable q i [] a w = tt
reopened-IsTable q i ((p, j) ∷ l) a w = elim (Bool-cases (p == q)) [
  | inl h ↦
      let same : j ≡ i =
        some-injective (subst (λ b. (if b then some j else at q l) ≡ some i) h a) in
      let w' = subst (λ y. IsTable ((p, y) ∷ l)) same w in
      rw h (omega arith, omega (arith, w'.1), w'.2, w'.3, w'.4)
  | inr h ↦
      let a' = subst (λ b. (if b then some j else at q l) ≡ some i) h a in
      rw h (
        w.0,
        w.1,
        Fresh-store p q _ l w.2,
        Shut-store j.sector q i _ l a' refl w.3,
        reopened-IsTable q i l a' w.4,
      )
]

-- With an address from `malloc` that no open inode has and a sector on the device, `inode_open` succeeds and gives
-- an address that holds an inode of the sector. The table stays in order: no sector is open twice, and
-- every open inode has an opener and no more denials of writes than openers.
pub inode_open-IsTable :
    (p sector : ℕ) (t : Table)
    → IsTable t.open_inodes
    → Fresh p t.open_inodes
    → sector < t.fs.dev.size
    → (q : ℕ) × (t' : Table) × (i : Inode) × (inode_open (some p) sector t ≡ ok (some q, t'))
      × (at q t'.open_inodes ≡ some i)
      × (i.sector ≡ sector)
      × IsTable t'.open_inodes
unfolding at
inode_open-IsTable p sector t w f h = elim (Option-cases (find_sector sector t.open_inodes)) [
  | inl e ↦ (
    p,
    _,
    initialized sector (t.fs.dev.store sector),
    open-none (some p) sector t e ∙ open-new p sector t h,
    rw ((==_iff p p).1 refl) refl,
    refl,
    (omega arith, omega arith, f, find-Shut sector t.open_inodes e, w),
  )
  | inr (q, e) ↦
      let (i, a, s, _) = find-at sector t.open_inodes q w e in
      let i' : Inode = record i { open_cnt = i.open_cnt + 1 } in
      (
        q,
        record t { open_inodes = store q i' t.open_inodes },
        i',
        open-some (some p) sector q t e
            ∙ ap {A = Run Table} {B = Run (Option ℕ × Table)} (λ m. m >>= λ t'. ok (some q, t'))
                (reopen-at q t i a),
        at-store q t.open_inodes i i' a,
        s,
        reopened-IsTable q i t.open_inodes a w,
      )
]
