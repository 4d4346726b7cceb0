-- ===== src/Userprog/Descriptors/Calls.antt =====
-- The calls on a descriptor, by what the table holds for it.
use project2_group.Base.{
  ℕ, ◌≤◌, ◌<◌, ◌≡◌, refl, ap, ◌∙◌, inl, inr, arith, true, false, none, some, List, Bool-cases,
  bind_then, ok, fault, panic, ◌>>=◌, length, get_elem?, get_elem?-eq-get_or, set, leb, ltb,
  if◌then◌else◌,
}
use project2_group.Userprog.Descriptors.{
  pos, negsuc, in_range, is_fd, Files, Process, returns, close, close_slot, filesize, read, write,
  write_file, seek, tell,
}
use project2_group.Userprog.Descriptors.Opening.{slot, IsTable}

module _ {S : Type 0} (f : Files S) where
  -- The calls on a descriptor that is not open and not above `fd_index`.
  pub record Crashes (fd : ℕ) (p : Process S) : Type 0 where
    pub filesize : filesize f (pos fd) p ≡ panic
    pub seek : (position : ℕ) → seek f (pos fd) position p ≡ panic
    pub tell : tell f (pos fd) p ≡ panic
    pub read : (size : ℕ) → read f (pos fd) false size p ≡ fault
    pub write : (buffer : List ℕ) → write f (pos fd) (some buffer) p ≡ fault
    pub close : close f (pos fd) p ≡ ok p

  empty_slot :
      (p : Process S) (fd : ℕ)
      → IsTable p
      → fd < 130
      → slot p fd ≡ none
      → get_elem? p.file_pointers fd ≡ some none
  empty_slot p fd t h e =
      let size = t.size in get_elem?-eq-get_or p.file_pointers fd none (omega arith) ∙ ap some e

  -- In a process whose descriptors in use lie between 2 and `fd_index`, at a descriptor from 2 to `fd_index` that is not
  -- open, as one that was closed or the next to be given out: `filesize`, `seek` and `tell` fail an ASSERT of the
  -- kernel; `read` with a buffer and `write` dereference a null pointer in it; `close` does nothing.
  pub closed_descriptor :
      (p : Process S) (fd : ℕ)
      → IsTable p
      → 2 ≤ fd
      → fd ≤ p.fd_index
      → fd < 130
      → slot p fd ≡ none
      → Crashes fd p
  unfolding filesize seek tell read write write_file close close_slot
  closed_descriptor p fd t l h b e =
      let g = empty_slot p fd t b e in
      let r : in_range 2 (pos fd) p.fd_index ≡ true = ground arith in
      let w : in_range 1 (pos fd) p.fd_index ≡ true = ground arith in
      let n₀ : is_fd 0 (pos fd) ≡ false = ground arith in
      let n₁ : is_fd 1 (pos fd) ≡ false = ground arith in
      record {
        filesize = rw (t.free, r, g) refl;
        seek = λ position. rw (t.free, r, g) refl;
        tell = rw (t.free, r, g) refl;
        read = λ size. rw (t.free, n₀, r, g) refl;
        write = λ buffer. rw (w, t.free, n₁, g) refl;
        close = rw (t.free, r, g) refl;
      }

  -- The calls on a descriptor that is open go to its file.
  pub record Reaches (fd q : ℕ) (p : Process S) : Type 0 where
    pub filesize :
        filesize f (pos fd) p ≡ (f.file_length q p.system >>= λ n. ok (returns (pos n) p))
    pub tell : tell f (pos fd) p ≡ (f.file_tell q p.system >>= λ n. ok (returns (pos n) p))
    pub seek :
        (position : ℕ)
        → seek f (pos fd) position p ≡ (
            f.file_seek q position p.system >>= λ s. ok (returns (pos 0) (record p { system = s })))
    pub read :
        (size : ℕ)
        → read f (pos fd) false size p ≡ (
            f.file_read q size p.system >>= λ r.
            ok (r.1, returns (pos r.0) (record p { system = r.2 })))
    pub write :
        (buffer : List ℕ)
        → write f (pos fd) (some buffer) p ≡ (
            f.is_dir q p.system >>= λ directory.
            if directory
            then ok (returns (negsuc 0) p)
            else (f.file_write q buffer p.system >>= λ r.
                ok (returns (pos r.0) (record p { system = r.1 }))))
    pub close : close f (pos fd) p ≡ (
        f.file_close q p.system >>= λ s.
        ok (record p { file_pointers = set p.file_pointers fd none; system = s }))

  pub used_range :
      (p : Process S) (fd q : ℕ) → IsTable p → slot p fd ≡ some q → (2 ≤ fd) × (fd < p.fd_index)
  used_range p fd q t e = elim (Bool-cases (ltb fd 2)) [
    | inl l ↦ (let u : slot p fd ≡ none = t.low fd (ground arith) in absurd (cc))
    | inr l ↦ elim (Bool-cases (leb p.fd_index fd)) [
      | inl h ↦ (let u : slot p fd ≡ none = t.unused fd (ground arith) in absurd (cc))
      | inr h ↦ (ground arith, ground arith)
    ]
  ]

  -- The table, whose slot holds a file.
  pub open_descriptor : (p : Process S) (fd q : ℕ) → IsTable p → slot p fd ≡ some q → Reaches fd q p
  unfolding filesize seek tell read write write_file close close_slot
  open_descriptor p fd q t e =
      let (l, h) = used_range p fd q t e in
      let size = t.size in
      let last = t.last in
      let g : get_elem? p.file_pointers fd ≡ some (some q) =
        get_elem?-eq-get_or p.file_pointers fd none (omega arith) ∙ ap some e in
      let r : in_range 2 (pos fd) p.fd_index ≡ true = ground arith in
      let w : in_range 1 (pos fd) p.fd_index ≡ true = ground arith in
      let n₀ : is_fd 0 (pos fd) ≡ false = ground arith in
      let n₁ : is_fd 1 (pos fd) ≡ false = ground arith in
      let b : ltb fd (length p.file_pointers) ≡ true = ground arith in
      record {
        filesize = rw (t.free, r, g) refl;
        tell = rw (t.free, r, g) refl;
        seek = λ position. rw (t.free, r, g) refl;
        read = λ size. rw (t.free, n₀, r, g) refl;
        write = λ buffer. rw (w, t.free, n₁, g) refl;
        close = rw (t.free, r, g) (bind_then (f.file_close q p.system) _ _ _ (λ s. rw b refl));
      }
