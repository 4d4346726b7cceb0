-- ===== src/Filesys/Open/Lookup.antt =====
-- The table of open inodes, the search in it, and what `inode_open` does in each of its cases.
use project2_group.Base.{
  some-injective, none_clash, ℕ, ◌+◌, ◌≤◌, ◌<◌, ◌≡◌, ◌≢◌, refl, sym, ap, subst, inl, inr, Option,
  none, some, List, [], ◌∷◌, ok, ◌>>=◌, ◌==◌, if◌then◌else◌, Bool-cases, bool_clash, ==_iff,
  ne_test,
}
use project2_group.Devices.Block.{block_read-ok}
use project2_group.Filesys.Inode.{Inode}
use project2_group.Filesys.Open.{
  Table, initialized, find_sector, at, store, inode_reopen, open_new, inode_open,
}

-- Neither the address nor the sector is in the list.
abbrev pub Fresh : ℕ → List (ℕ × Inode) → Type 0
Fresh p [] = Unit {0}
Fresh p ((q, i) ∷ l) = (q ≢ p) × Fresh p l

abbrev pub Shut : ℕ → List (ℕ × Inode) → Type 0
Shut s [] = Unit {0}
Shut s ((q, i) ∷ l) = (i.sector ≢ s) × Shut s l

-- Every open inode has an opener, no more denials than openers, an address and a sector of its own.
abbrev pub IsTable : List (ℕ × Inode) → Type 0
IsTable [] = Unit {0}
IsTable ((p, i) ∷ l) =
    (0 < i.open_cnt) × (i.deny_write_cnt ≤ i.open_cnt) × Fresh p l × Shut i.sector l × IsTable l

at-Fresh : (q : ℕ) (l : List (ℕ × Inode)) (i : Inode) → Fresh q l → at q l ≢ some i
unfolding at
at-Fresh q [] i f e = cc
at-Fresh q ((p, j) ∷ l) i (n, f) e =
    at-Fresh q l i f (subst (λ b. (if b then some j else at q l) ≡ some i) (ne_test p q n) e)

-- The inode that the search finds is in the list, with its sector.
pub find-at :
    (s : ℕ) (l : List (ℕ × Inode)) (q : ℕ)
    → IsTable l
    → find_sector s l ≡ some q
    → (i : Inode) × (at q l ≡ some i) × (i.sector ≡ s) × (0 < i.open_cnt)
unfolding find_sector at
find-at s [] q w e = cc
find-at s ((p, i) ∷ l) q w e = elim (Bool-cases (i.sector == s)) [
  | inl h ↦
      let same : p ≡ q =
        some-injective (subst (λ b. (if b then some p else find_sector s l) ≡ some q) h e) in
      (i, rw ((==_iff p q).1 same) refl, (==_iff i.sector s).0 h, w.0)
  | inr h ↦
      let (j, a, b, c) =
        find-at s l q w.4 (subst (λ b. (if b then some p else find_sector s l) ≡ some q) h e) in
      let apart : p ≢ q = λ d. at-Fresh p l j w.2 (subst (λ r. at r l ≡ some j) (sym d) a) in
      (j, rw (ne_test p q apart) a, b, c)
]

pub find-Shut : (s : ℕ) (l : List (ℕ × Inode)) → find_sector s l ≡ none → Shut s l
unfolding find_sector
find-Shut s [] e = tt
find-Shut s ((p, i) ∷ l) e = elim (Bool-cases (i.sector == s)) [
  | inl h ↦ none_clash (sym (subst (λ b. (if b then some p else find_sector s l) ≡ none) h e))
  | inr h ↦ (
    λ d. bool_clash h ((==_iff i.sector s).1 d),
    find-Shut s l (subst (λ b. (if b then some p else find_sector s l) ≡ none) h e),
  )
]

pub at-store :
    (q : ℕ) (l : List (ℕ × Inode)) (i x : Inode) → at q l ≡ some i → at q (store q x l) ≡ some x
unfolding at store
at-store q [] i x e = cc
at-store q ((p, j) ∷ l) i x e = elim (Bool-cases (p == q)) [
  | inl h ↦ rw (h, h) refl
  | inr h ↦ rw (h, h) (at-store q l i x (subst (λ b. (if b then some j else at q l) ≡ some i) h e))
]

-- Storing what was there undoes a store.
pub store-store :
    (q : ℕ) (l : List (ℕ × Inode)) (i x : Inode) → at q l ≡ some i → store q i (store q x l) ≡ l
unfolding at store
store-store q [] i x e = refl
store-store q ((p, j) ∷ l) i x e = elim (Bool-cases (p == q)) [
  | inl h ↦
      let same : j ≡ i =
        some-injective (subst (λ b. (if b then some j else at q l) ≡ some i) h e) in
      rw (h, h, same) refl
  | inr h ↦
      rw (h, h)
        (ap (◌∷◌ (p, j))
          (store-store q l i x (subst (λ b. (if b then some j else at q l) ≡ some i) h e)))
]

-- A sector that is not open, and one that is.
pub open-none :
    (mem : Option ℕ) (sector : ℕ) (t : Table)
    → find_sector sector t.open_inodes ≡ none
    → inode_open mem sector t ≡ open_new mem sector t
unfolding inode_open
open-none mem sector t e = rw (e, inode_open) refl

pub open-some :
    (mem : Option ℕ) (sector q : ℕ) (t : Table)
    → find_sector sector t.open_inodes ≡ some q
    → inode_open mem sector t ≡ (inode_reopen q t >>= λ t'. ok (some q, t'))
unfolding inode_open
open-some mem sector q t e = rw (e, inode_open) refl

pub open-new :
    (p sector : ℕ) (t : Table)
    → sector < t.fs.dev.size
    → open_new (some p) sector t
      ≡ ok (
        some p,
        record {
          fs = record t.fs { dev = record t.fs.dev { read_cnt = t.fs.dev.read_cnt + 1 } };
          open_inodes = (p, initialized sector (t.fs.dev.store sector)) ∷ t.open_inodes;
        },
      )
unfolding open_new
open-new p sector t h = rw (block_read-ok t.fs.dev sector h) refl

pub reopen-at :
    (q : ℕ) (t : Table) (i : Inode)
    → at q t.open_inodes ≡ some i
    → inode_reopen q t
      ≡ ok (record t {
        open_inodes = store q (record i { open_cnt = i.open_cnt + 1 }) t.open_inodes;
      })
unfolding inode_reopen
reopen-at q t i e = rw e refl
