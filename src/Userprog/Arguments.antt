-- ===== src/Userprog/Arguments.antt =====
-- userprog/process.c: the arguments that `setup_stack` pushes on the stack of a new process. Memory gives the byte at
-- each address; only the page below PHYS_BASE is mapped, and an access outside it is a fault.
pub mod Pushing
pub mod Strings
pub mod Layout
pub mod Launch
mod Tests
use project2_group.Base.{
  ℕ, zero, suc, ◌+◌, ◌-◌, ◌*◌, ◌/◌, ◌%◌, ◌^◌, Bool, List, [], ◌∷◌, Run, ok, fault, ◌>>=◌, deref,
  leb, ltb, ◌==◌, ◌&&◌, if◌then◌else◌, get_elem?, drop, length,
}
use project2_group.Clib.Text.{strlen}

abbrev pub phys_base : ℕ
phys_base = 0xc0000000

-- `esp` is the variable `myEsp`.
pub record Stack : Type 0 where
  pub esp : ℕ
  pub memory : ℕ → ℕ

abbrev pub is_mapped : ℕ → Bool
is_mapped a = leb (phys_base - 4096) a && ltb a phys_base

abbrev pub write : ℕ → ℕ → (ℕ → ℕ) → ℕ → ℕ
write a v memory q = if q == a then v else memory q

-- `*myEsp = v`, for a `char *`.
unfoldable pub store : Stack → ℕ → Run Stack
store st v =
    if is_mapped st.esp then ok (record st { memory = write st.esp (v % 256) st.memory }) else fault

-- `myEsp -= n`.
abbrev pub lower : ℕ → Stack → Stack
lower n st = record st { esp = st.esp - n }

abbrev pub push_byte : ℕ → Stack → Run Stack
push_byte v st = store (lower 1 st) v

-- Four bytes with only the lowest one stored.
abbrev pub push_low : ℕ → Stack → Run Stack
push_low v st = store (lower 4 st) v

-- `*(char **) myEsp = v`: four bytes, the lowest one first in memory.
unfoldable pub push_word : ℕ → Stack → Run Stack
push_word v st = do
  st₁ ← push_byte (v / 2 ^ 24) st
  st₂ ← push_byte (v / 2 ^ 16) st₁
  st₃ ← push_byte (v / 2 ^ 8) st₂
  push_byte v st₃

-- The loop over an argument's characters from index `i - 1` down.
unfoldable pub push_chars : ℕ → List ℕ → Stack → Run Stack
push_chars zero s st = ok st
push_chars (suc i) s st = do c ← deref (get_elem? s i); st' ← push_byte c st; push_chars i s st'

-- An argument, a string with its terminator: `i` starts at `strlen (args[count] + 1)`.
unfoldable pub push_string : List ℕ → Stack → Run Stack
push_string s st = do st₁ ← push_byte 0 st; i ← strlen (drop 1 s); push_chars (i + 1) s st₁

-- The loop over the arguments, the last one first: `whereArgs`, and the stack.
unfoldable pub push_strings : List (List ℕ) → Stack → Run (List ℕ × Stack)
push_strings [] st = ok ([], st)
push_strings (s ∷ args) st = do
  (where_args, st₁) ← push_strings args st
  st₂ ← push_string s st₁
  ok (st₂.esp ∷ where_args, st₂)

-- `(int) myEsp` is negative, so that its remainder by 4 is 0 or negative.
abbrev pub alignment : ℕ → ℕ
alignment esp = if esp % 4 == 0 then 4 else esp % 4

unfoldable pub push_zeros : ℕ → Stack → Run Stack
push_zeros zero st = ok st
push_zeros (suc n) st = push_byte 0 st >>= λ st'. push_zeros n st'

-- The loop over `whereArgs`, the last one first.
unfoldable pub push_pointers : List ℕ → Stack → Run Stack
push_pointers [] st = ok st
push_pointers (w ∷ where_args) st = push_pointers where_args st >>= λ st'. push_word w st'

-- `ret` holds what was in memory. The stack's page has been mapped.
unfoldable pub push_arguments : ℕ → List (List ℕ) → Stack → Run Stack
push_arguments ret args st = do
  (where_args, st₁) ← push_strings args st
  st₂ ← push_zeros (alignment st₁.esp) st₁
  st₃ ← push_low 0 st₂
  st₄ ← push_pointers where_args st₃
  st₅ ← push_word st₄.esp st₄
  st₆ ← push_low (length args) st₅
  push_low ret st₆
