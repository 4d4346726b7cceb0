-- ===== src/Userprog/CommandLine.antt =====
-- userprog/process.c: what `setup_stack` does with the command line once the stack's page is mapped.
pub mod Splitting
pub mod Words
pub mod Launching
pub mod Overflow
mod Tests
use project2_group.Base.{
  ℕ, zero, suc, ◌+◌, Option, none, some, List, [], ◌∷◌, map, Run, ok, fault, ◌>>=◌, drop, slice,
}
use project2_group.Clib.Text.{strlen, strlcpy}
use project2_group.Clib.Tokens.{strtok_r}
use project2_group.Userprog.Arguments.{Stack, push_arguments}

abbrev pub space : List ℕ
space = 32 ∷ 0 ∷ []

-- The loop over the tokens, with `slots` elements of `args` left: the offsets that it stores, and the object.
-- Storing past the array is a fault, which the ASSERT on `count` comes too late for.
unfoldable pub tokens : ℕ → List ℕ → ℕ → Run (List ℕ × List ℕ)
tokens zero object s =
    strtok_r space object s >>= λ r. elim r.0 [ none ↦ ok ([], r.1) | some token ↦ fault ]
tokens (suc slots) object s = strtok_r space object s >>= λ r. elim r.0 [
  | none ↦ ok ([], r.1)
  | some token ↦ tokens slots r.1 r.2 >>= λ q. ok (token ∷ q.0, q.1)
]

-- The declaration of the array `s`, of `strlen (file_cpy)` bytes, and the copy into it. What an array that is not
-- initialised holds is `junk`.
unfoldable pub copy_command_line : (ℕ → ℕ) → List ℕ → Run (List ℕ)
copy_command_line junk file_name = do
  n ← strlen file_name
  copy ← strlcpy (slice junk 0 n) file_name (n + 1)
  ok copy.1

-- What follows the copy. `object` is memory from `s` on, and `ret` is not initialised.
unfoldable pub push_tokens : ℕ → List ℕ → Stack → Run Stack
push_tokens ret object st = do
  r ← tokens 130 object 0
  push_arguments ret (map (λ token. drop token r.1) r.0) st

unfoldable pub push_command_line : ℕ → (ℕ → ℕ) → List ℕ → Stack → Run Stack
push_command_line ret junk file_name st = do
  object ← copy_command_line junk file_name
  push_tokens ret object st
