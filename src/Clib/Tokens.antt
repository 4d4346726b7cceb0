-- ===== src/Clib/Tokens.antt =====
-- lib/string.c: `strtok_r`, on the object that the string lies in and offsets in it, since a later call
-- writes into the string that earlier tokens point into. `save_ptr` is an offset too.
pub mod Splitting
pub mod Cutting
mod Tests
use project2_group.Base.{
  ℕ, zero, suc, ◌+◌, Bool, true, false, Option, none, some, List, [], ◌∷◌, Run, ok, fault, ◌>>=◌,
  deref, ◌==◌, if◌then◌else◌, get_elem?, set, drop,
}
use project2_group.Clib.Text.{strchr}

-- Where the loop over the delimiters ends: at the terminator or at a token.
pub data Stop : Type 0 where
  at_terminator at_token : ℕ → Stop

unfoldable pub skip_delimiters : List ℕ → List ℕ → ℕ → Run Stop
skip_delimiters delimiters [] i = fault
skip_delimiters delimiters (c ∷ s) i =
    let rest = skip_delimiters delimiters s (i + 1) in
    strchr delimiters c >>= λ found. elim found [
      | none ↦ ok (at_token i)
      | some _ ↦ if c == 0 then ok (at_terminator i) else rest
    ]

unfoldable pub skip_token : List ℕ → List ℕ → ℕ → Run ℕ
skip_token delimiters [] i = fault
skip_token delimiters (c ∷ s) i =
    let rest = skip_token delimiters s (i + 1) in
    strchr delimiters c >>= λ found. elim found [ none ↦ rest | some _ ↦ ok i ]

-- The token that starts at `token`: what is returned, the object and `*save_ptr`.
unfoldable pub cut_token : List ℕ → List ℕ → ℕ → Run (Option ℕ × List ℕ × ℕ)
cut_token delimiters object token = do
  s ← skip_token delimiters (drop token object) token
  c ← deref (get_elem? object s)
  if c == 0 then ok (some token, object, s) else ok (some token, set object s 0, s + 1)

-- From the offset `s` on, which is `*save_ptr` in a call whose first argument is null.
unfoldable pub strtok_r : List ℕ → List ℕ → ℕ → Run (Option ℕ × List ℕ × ℕ)
strtok_r delimiters object s = skip_delimiters delimiters (drop s object) s >>= λ stop. elim stop [
  | at_terminator i ↦ ok (none, object, i)
  | at_token i ↦ cut_token delimiters object i
]
