-- ===== src/Userprog/Descriptors.antt =====
-- userprog/syscall.c: the calls on open files, for one process. Its files are addresses; what the file system and
-- the console do with them is `Files`, over a state of any type. A null pointer is `none`, and `fd` is a C int.
pub mod Opening
pub mod Using
pub mod Calls
pub mod Model
pub mod Keeping
pub mod Refinement
mod Tests
use project2_group.Base.{
  ℕ, zero, suc, ◌+◌, ◌-◌, ◌<◌, Bool, false, not, Option, none, some, List, [], ◌∷◌, length, Run, ok,
  panic, fault, out_of_fuel, ◌>>=◌, deref, leb, ltb, ◌&&◌, ◌==◌, if◌then◌else◌, get_elem?, set,
  take,
}

-- A C int.
pub data ℤ : Type 0 where
  pos negsuc : ℕ → ℤ

-- filesys/filesys.c, filesys/file.c, and the console. A call on a file takes its address.
pub record Files (S : Type 0) : Type 0 where
  pub filesys_open : List ℕ → S → Run (Option ℕ × S)
  pub file_close : ℕ → S → Run S
  pub file_length : ℕ → S → Run ℕ
  -- The result, which need not be the number of bytes, and the bytes that are stored.
  pub file_read : ℕ → ℕ → S → Run (ℕ × List ℕ × S)
  pub file_write : ℕ → List ℕ → S → Run (ℕ × S)
  pub file_seek : ℕ → ℕ → S → Run S
  pub file_tell : ℕ → S → Run ℕ
  -- `inode->is_dir` is -1.
  pub is_dir : ℕ → S → Run Bool
  pub input_getc : S → Run (ℕ × S)
  pub putbuf : List ℕ → S → Run S

-- The fields of `struct thread` that the calls use, the value of the semaphore `sema_files`, and the rest.
pub record Process (S : Type 0) : Type 0 where
  pub fd_index : ℕ
  pub file_pointers : List (Option ℕ)
  pub sema_files : ℕ
  pub system : S

-- A call returns, or ends the process.
pub data Outcome (S : Type 0) : Type 0 where
  returns : ℤ → Process S → Outcome S
  exits : Process S → Outcome S

abbrev pub in_range : ℕ → ℤ → ℕ → Bool
in_range first (pos fd) last = leb first fd && leb fd last
in_range first (negsuc n) last = false

abbrev pub is_fd : ℕ → ℤ → Bool
is_fd n (pos fd) = fd == n
is_fd n (negsuc m) = false

abbrev pub index : ℤ → ℕ
index (pos fd) = fd
index (negsuc n) = 0

-- ASSERT (file != NULL).
abbrev pub not_null {ℓ} : {A : Type ℓ} → Option A → Run A
not_null none = panic
not_null (some q) = ok q

module _ {S : Type 0} where
  -- `sema_down (&sema_files)`: nobody else would end the wait.
  abbrev pub down : Process S → Run (Process S)
  down p =
      if ltb 0 p.sema_files then ok (record p { sema_files = p.sema_files - 1 }) else out_of_fuel

  abbrev pub up : Process S → Process S
  up p = record p { sema_files = p.sema_files + 1 }

  -- `file_pointers[fd] = file`.
  abbrev pub put : ℕ → Option ℕ → Process S → Run (Process S)
  put fd file p =
      if ltb fd (length p.file_pointers)
      then ok (record p { file_pointers = set p.file_pointers fd file })
      else fault

  -- What `open` returns once the file is in the table.
  abbrev pub open_result : Option ℕ → Process S → Outcome S
  open_result none p = returns (negsuc 0) (up p)
  open_result (some q) p = returns (pos p.fd_index) (up (record p { fd_index = p.fd_index + 1 }))

module _ {S : Type 0} (f : Files S) where
  unfoldable pub open' : List ℕ → Process S → Run (Outcome S)
  open' name p = do
    p₁ ← down p
    (file, s) ← f.filesys_open name p₁.system
    p₂ ← put p₁.fd_index file (record p₁ { system = s })
    ok (open_result file p₂)

  unfoldable pub filesize : ℤ → Process S → Run (Outcome S)
  filesize fd p = do
    p₁ ← down p
    if in_range 2 fd p₁.fd_index
        then (do
          slot ← deref (get_elem? p₁.file_pointers (index fd))
          file ← not_null slot
          n ← f.file_length file p₁.system
          ok (returns (pos n) (up p₁)))
        else ok (returns (pos 0) (up p₁))

  -- The loop over the keys of a read from the keyboard. A key is stored through the buffer's pointer.
  unfoldable pub read_keys : Bool → ℕ → S → Run (List ℕ × S)
  read_keys buffer_is_null zero s = ok ([], s)
  read_keys buffer_is_null (suc size) s =
      let rest = read_keys buffer_is_null size in
      f.input_getc s >>= λ key.
      if buffer_is_null then fault else (rest key.1 >>= λ keys. ok (key.0 ∷ keys.0, keys.1))

  -- The bytes that a read stores in the buffer, whose pointer is null or not. A null file is dereferenced.
  unfoldable pub read : ℤ → Bool → ℕ → Process S → Run (List ℕ × Outcome S)
  read fd buffer_is_null size p = do
    p₁ ← down p
    if is_fd 0 fd
        then (do
          (cs, s) ← read_keys buffer_is_null size p₁.system
          ok (cs, returns (pos size) (up (record p₁ { system = s }))))
        else if in_range 2 fd p₁.fd_index && not buffer_is_null
        then (do
          slot ← deref (get_elem? p₁.file_pointers (index fd))
          file ← deref slot
          (n, bytes, s) ← f.file_read file size p₁.system
          ok (bytes, returns (pos n) (up (record p₁ { system = s }))))
        else ok ([], returns (negsuc 0) (up p₁))

  -- The console, with a buffer that is not null.
  unfoldable pub write_console : List ℕ → Process S → Run (Outcome S)
  write_console buffer p = if length buffer == 0 then ok (returns (pos 0) (up p)) else (do
    s ← f.putbuf buffer p.system
    ok (returns (pos (length buffer)) (up (record p { system = s }))))

  -- A file, whose null pointer is dereferenced. `sema_files` is released before the write.
  unfoldable pub write_file : ℕ → List ℕ → Process S → Run (Outcome S)
  write_file fd buffer p = do
    slot ← deref (get_elem? p.file_pointers fd)
    file ← deref slot
    directory ← f.is_dir file p.system
    if directory then ok (returns (negsuc 0) (up p)) else (do
      (n, s) ← f.file_write file buffer p.system
      ok (returns (pos n) (record (up p) { system = s })))

  -- `buffer` is what the pointer points to, `size` bytes.
  unfoldable pub write : ℤ → Option (List ℕ) → Process S → Run (Outcome S)
  write fd none p = ok (returns (pos 0) p)
  write fd (some buffer) p =
      if in_range 1 fd p.fd_index
      then (do
        p₁ ← down p
        if is_fd 1 fd then write_console buffer p₁ else write_file (index fd) buffer p₁)
      else ok (returns (pos 0) p)

  unfoldable pub seek : ℤ → ℕ → Process S → Run (Outcome S)
  seek fd position p = do
    p₁ ← down p
    if in_range 2 fd p₁.fd_index
        then (do
          slot ← deref (get_elem? p₁.file_pointers (index fd))
          file ← not_null slot
          s ← f.file_seek file position p₁.system
          ok (returns (pos 0) (up (record p₁ { system = s }))))
        else ok (exits (up p₁))

  unfoldable pub tell : ℤ → Process S → Run (Outcome S)
  tell fd p = do
    p₁ ← down p
    if in_range 2 fd p₁.fd_index
        then (do
          slot ← deref (get_elem? p₁.file_pointers (index fd))
          file ← not_null slot
          n ← f.file_tell file p₁.system
          ok (returns (pos n) (up p₁)))
        else ok (exits (up p₁))

  -- The file that a slot of the table holds, if any.
  unfoldable pub close_slot : ℕ → Option ℕ → Process S → Run (Process S)
  close_slot fd none p = ok p
  close_slot fd (some file) p = do
    s ← f.file_close file p.system
    put fd none (record p { system = s })

  unfoldable pub close : ℤ → Process S → Run (Process S)
  close fd p = do
    p₁ ← down p
    if in_range 2 fd p₁.fd_index
        then (do
          slot ← deref (get_elem? p₁.file_pointers (index fd))
          p₂ ← close_slot (index fd) slot p₁
          ok (up p₂))
        else ok (up p₁)

  -- The loop of `close_files` from `counter` on, with `n` rounds left.
  unfoldable pub close_from : ℕ → ℕ → Process S → Run (Process S)
  close_from zero counter p = ok p
  close_from (suc n) counter p = close (pos counter) p >>= close_from n (counter + 1)

  unfoldable pub close_files : Process S → Run (Process S)
  close_files p = close_from 128 2 p
