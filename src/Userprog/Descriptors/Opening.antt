-- ===== src/Userprog/Descriptors/Opening.antt =====
-- The table of open files: the calls that enter files in it and remove them.
use project2_group.Base.{
  ℕ, zero, suc, ◌+◌, ◌≤◌, ◌<◌, ◌≡◌, ◌≢◌, refl, sym, ap, ◌∙◌, arith, true, false, Option, none, some,
  List, [], ◌∷◌, ok, fault, length, length-set, get_or, get_or-set_self, get_or-set_ne, set, ltb,
}
use project2_group.Userprog.Descriptors.{pos, negsuc, Files, Process, Outcome, returns, open'}

module _ {S : Type 0} where
  abbrev pub slot : Process S → ℕ → Option ℕ
  slot p fd = get_or p.file_pointers fd none

  -- The descriptors in use lie between 2 and `fd_index`, and no call is under way.
  pub record IsTable (p : Process S) : Type 0 where
    pub size : length p.file_pointers ≡ 130
    pub first : 2 ≤ p.fd_index
    pub last : p.fd_index ≤ 130
    pub low : (fd : ℕ) → fd < 2 → slot p fd ≡ none
    pub unused : (fd : ℕ) → p.fd_index ≤ fd → slot p fd ≡ none
    pub free : p.sema_files ≡ 1

  -- The process `p'` has one more open file than `p`.
  pub record HasOpened (p p' : Process S) (s : S) (q : ℕ) : Type 0 where
    pub table : IsTable p'
    pub next : p'.fd_index ≡ p.fd_index + 1
    pub system : p'.system ≡ s
    pub fresh : slot p p.fd_index ≡ none
    pub entered : slot p' p.fd_index ≡ some q
    pub others : (fd : ℕ) → fd ≢ p.fd_index → slot p' fd ≡ slot p fd

  -- What `open` makes of the file that it is given.
  abbrev pub IsOpening : Process S → S → Option ℕ → Outcome S → Type 0
  IsOpening p s none out = out ≡ returns (negsuc 0) (record p { system = s })
  IsOpening p s (some q) out =
      (p' : Process S) × (out ≡ returns (pos p.fd_index) p') × HasOpened p p' s q

set_same {ℓ} : {A : Type ℓ} (xs : List A) (i : ℕ) (d : A) → get_or xs i d ≡ d → set xs i d ≡ xs
set_same [] i d h = refl
set_same (x ∷ xs) zero d h = ap (λ y. y ∷ xs) (sym h)
set_same (x ∷ xs) (suc i) d h = ap (◌∷◌ x) (set_same xs i d h)

module _ {S : Type 0} (f : Files S) where
  entered_table :
      (p : Process S) (s : S) (q : ℕ)
      → IsTable p
      → p.fd_index < 130
      → HasOpened p
          (record {
            fd_index = p.fd_index + 1;
            file_pointers = set p.file_pointers p.fd_index (some q);
            sema_files = 1;
            system = s;
          })
          s
          q
  entered_table p s q t h =
      let size = t.size in
      let first = t.first in
      let l = length-set p.file_pointers p.fd_index (some q) in
      record {
        table = record {
          size = omega arith;
          first = omega arith;
          last = omega arith;
          low = λ fd e.
              get_or-set_ne p.file_pointers p.fd_index fd (some q) none (λ x. omega arith)
              ∙ t.low fd e;
          unused = λ fd e.
              get_or-set_ne p.file_pointers p.fd_index fd (some q) none (λ x. omega arith)
              ∙ t.unused fd (omega arith);
          free = refl;
        };
        next = refl;
        system = refl;
        fresh = t.unused p.fd_index (omega arith);
        entered = get_or-set_self p.file_pointers p.fd_index (some q) none (omega arith);
        others = λ fd n. get_or-set_ne p.file_pointers p.fd_index fd (some q) none (λ x. n (sym x));
      }

  -- In a table with a descriptor left, for a name that the file system opens as a file or as null: `open` returns
  -- -1 for null and leaves the table as it is; for a file it returns the next descriptor, free until then, and
  -- enters the file there and nothing anywhere else; `sema_files` is free again.
  pub open'_lem :
      (name : List ℕ) (p : Process S) (s : S) (file : Option ℕ)
      → IsTable p
      → p.fd_index < 130
      → f.filesys_open name p.system ≡ ok (file, s)
      → (out : Outcome S) × (open' f name p ≡ ok out) × IsOpening p s file out
  unfolding open'
  open'_lem name p s none t h e =
      let size = t.size in
      let room : ltb p.fd_index (length p.file_pointers) ≡ true = ground arith in
      let same = set_same p.file_pointers p.fd_index none (t.unused p.fd_index (omega arith)) in
      (returns (negsuc 0) (record p { system = s }), rw (t.free, e, room, same) refl, refl)
  open'_lem name p s (some q) t h e =
      let size = t.size in
      let room : ltb p.fd_index (length p.file_pointers) ≡ true = ground arith in
      let p' : Process S = record {
        fd_index = p.fd_index + 1;
        file_pointers = set p.file_pointers p.fd_index (some q);
        sema_files = 1;
        system = s;
      } in
      (returns (pos p.fd_index) p', rw (t.free, e, room) refl, (p', refl, entered_table p s q t h))

  -- In a table with all 128 descriptors given out: `open` of any name that the file system answers writes behind
  -- the end of `file_pointers`.
  pub open'_full :
      (name : List ℕ) (p : Process S) (r : Option ℕ × S)
      → IsTable p
      → p.fd_index ≡ 130
      → f.filesys_open name p.system ≡ ok r
      → open' f name p ≡ fault
  unfolding open'
  open'_full name p r t h e =
      let size = t.size in
      let full : ltb p.fd_index (length p.file_pointers) ≡ false = ground arith in
      rw (t.free, e, full) refl
