-- ===== src/Userprog/Descriptors/Model.antt =====
-- What the table of open files promises: descriptors are the keys of a map to files, given out in ascending order.
-- The calls of a program on files, in the code and in terms of that map.
use project2_group.Base.{
  ℕ, ◌+◌, false, Option, none, some, List, [], ◌∷◌, Run, ok, ◌>>=◌, ltb, ◌==◌, if◌then◌else◌,
}
use project2_group.Userprog.Descriptors.{
  ℤ, pos, negsuc, Files, Process, Outcome, returns, exits, open', close, filesize, read, write,
  seek, tell,
}

pub data Call : Type 0 where
  opening : List ℕ → Call
  length_of : ℕ → Call
  reading : (fd size : ℕ) → Call
  writing : ℕ → List ℕ → Call
  seeking : (fd position : ℕ) → Call
  telling : ℕ → Call
  closing : ℕ → Call

-- What a call stores in the caller's buffer, and returns.
abbrev pub Answer : Type 0
Answer = List ℕ × ℤ

pub record Map (S : Type 0) : Type 0 where
  pub next : ℕ
  pub file : ℕ → Option ℕ
  pub system : S

abbrev pub assign : ℕ → Option ℕ → (ℕ → Option ℕ) → ℕ → Option ℕ
assign fd o file d = if d == fd then o else file d

module _ {S : Type 0} (f : Files S) where
  -- The code. Buffers are not null.
  unfoldable pub perform : Call → Process S → Run (List ℕ × Outcome S)
  perform (opening name) p = open' f name p >>= λ out. ok ([], out)
  perform (length_of fd) p = filesize f (pos fd) p >>= λ out. ok ([], out)
  perform (reading fd size) p = read f (pos fd) false size p
  perform (writing fd buffer) p = write f (pos fd) (some buffer) p >>= λ out. ok ([], out)
  perform (seeking fd position) p = seek f (pos fd) position p >>= λ out. ok ([], out)
  perform (telling fd) p = tell f (pos fd) p >>= λ out. ok ([], out)
  perform (closing fd) p = close f (pos fd) p >>= λ p'. ok ([], returns (pos 0) p')

  abbrev pub before : Answer → Run (List Answer × Process S) → Run (List Answer × Process S)
  before a r = r >>= λ q. ok (a ∷ q.0, q.1)

  -- The calls up to the first that ends the process.
  unfoldable pub run_calls : List Call → Process S → Run (List Answer × Process S)
  run_calls [] p = ok ([], p)
  run_calls (c ∷ calls) p =
      let rest = run_calls calls in
      perform c p >>= λ r. elim r.1 [
        | returns v p' ↦ before (r.0, v) (rest p')
        | exits p' ↦ ok ([], p')
      ]

  abbrev pub answered : List ℕ → ℤ → Map S → Run (Option (Answer × Map S))
  answered bytes v m = ok (some ((bytes, v), m))

  -- A call on the file of a descriptor.
  unfoldable pub on_file : Call → ℕ → Map S → Run (Option (Answer × Map S))
  on_file (opening name) q m = ok none
  on_file (length_of fd) q m = f.file_length q m.system >>= λ n. answered [] (pos n) m
  on_file (reading fd size) q m =
      f.file_read q size m.system >>= λ r. answered r.1 (pos r.0) (record m { system = r.2 })
  on_file (writing fd buffer) q m = f.is_dir q m.system >>= λ directory.
      if directory
      then answered [] (negsuc 0) m
      else (f.file_write q buffer m.system >>= λ r.
          answered [] (pos r.0) (record m { system = r.1 }))
  on_file (seeking fd position) q m =
      f.file_seek q position m.system >>= λ s. answered [] (pos 0) (record m { system = s })
  on_file (telling fd) q m = f.file_tell q m.system >>= λ n. answered [] (pos n) m
  on_file (closing fd) q m = f.file_close q m.system >>= λ s.
      answered [] (pos 0) (record m { file = assign fd none m.file; system = s })

  -- A file that was opened, or a null pointer.
  unfoldable pub enter : Option ℕ → Map S → Run (Option (Answer × Map S))
  enter none m = answered [] (negsuc 0) m
  enter (some q) m =
      answered [] (pos m.next)
        (record m { next = m.next + 1; file = assign m.next (some q) m.file })

  -- `none`: nothing is promised for a descriptor without a file, nor for opening a 129th file.
  unfoldable pub promise : Call → Map S → Run (Option (Answer × Map S))
  promise (opening name) m =
      if ltb m.next 130
      then (f.filesys_open name m.system >>= λ r. enter r.0 (record m { system = r.1 }))
      else ok none
  promise (length_of fd) m = elim (m.file fd) [
    | none ↦ ok none
    | some q ↦ on_file (length_of fd) q m
  ]
  promise (reading fd size) m = elim (m.file fd) [
    | none ↦ ok none
    | some q ↦ on_file (reading fd size) q m
  ]
  promise (writing fd buffer) m = elim (m.file fd) [
    | none ↦ ok none
    | some q ↦ on_file (writing fd buffer) q m
  ]
  promise (seeking fd position) m = elim (m.file fd) [
    | none ↦ ok none
    | some q ↦ on_file (seeking fd position) q m
  ]
  promise (telling fd) m = elim (m.file fd) [ none ↦ ok none | some q ↦ on_file (telling fd) q m ]
  promise (closing fd) m = elim (m.file fd) [ none ↦ ok none | some q ↦ on_file (closing fd) q m ]

  abbrev pub before_all : Answer → Option (List Answer × Map S) → Option (List Answer × Map S)
  before_all a none = none
  before_all a (some q) = some (a ∷ q.0, q.1)

  -- The same calls on the map; `none` if nothing is promised for one of them.
  unfoldable pub promises : List Call → Map S → Run (Option (List Answer × Map S))
  promises [] m = ok (some ([], m))
  promises (c ∷ calls) m =
      let rest = promises calls in
      promise c m >>= λ o. elim o [
        | none ↦ ok none
        | some r ↦ (rest r.1 >>= λ q. ok (before_all r.0 q))
      ]
