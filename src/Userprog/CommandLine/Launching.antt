-- ===== src/Userprog/CommandLine/Launching.antt =====
-- From the copy of the command line to the stack of the new process.
use project2_group.Base.{
  ℕ, ◌+◌, ◌*◌, ◌≤◌, ◌≡◌, refl, ap, subst, arith, List, [], ◌∷◌, ◌++◌, map, ok, length,
  length-append,
}
use project2_group.Clib.Tokens.Splitting.{IsLine, words}
use project2_group.Userprog.Arguments.{Stack}
use project2_group.Userprog.Arguments.Pushing.{IsClear}
use project2_group.Userprog.Arguments.Strings.{Argument, text_of, stored, strings}
use project2_group.Userprog.Arguments.Layout.{length-map}
use project2_group.Userprog.Arguments.Launch.{IsLaunched, push_arguments_lem}
use project2_group.Userprog.CommandLine.{push_tokens}
use project2_group.Userprog.CommandLine.Words.{tokens_lem}

-- The bytes of the stack at most: each word with its terminator and its pointer, and twenty more.
abbrev pub room : List (List ℕ) → ℕ
room [] = 20
room (w ∷ ws) = length w + 5 + room ws

room-strings :
    (args : List Argument) → length (strings args) + 4 * length args + 20 ≡ room (map text_of args)
room-strings [] = refl
room-strings (a ∷ args) = omega (
  arith,
  room-strings args,
  length-append (stored a) (strings args),
  length-append a.text (0 ∷ []),
)

-- Memory that holds, from `s` on, a command line of bytes without a 0 and its terminator; the line has at most 130
-- words, which fit in the page, and that holds only zeros. What `setup_stack` does after the copy runs without a
-- fault. It leaves the stack pointer a multiple of 4 and in the page, with argc above the return address and argv
-- after it; the array that argv points to holds the addresses of the words of the line, each with its terminator and
-- in order, and a null pointer.
pub push_tokens_lem :
    (ret : ℕ) (line rest : List ℕ) (st : Stack)
    → IsLine line
    → length (words line) ≤ 130
    → room (words line) ≤ 4096
    → IsClear 4096 st
    → (st' : Stack) × (push_tokens ret (line ++ 0 ∷ rest) st ≡ ok st') × IsLaunched st' (words line)
unfolding push_tokens
push_tokens_lem ret line rest st l n r c =
    let f = tokens_lem 130 [] line rest l n in
    let fit = ap room f.texts in
    let count = ap length f.texts in
    let p =
      push_arguments_lem ret f.args st f.valid (omega (arith, length-map text_of f.args))
        (omega (arith, room-strings f.args)) c in
    (p.0, rw f.run (rw f.at_offsets p.1), subst (IsLaunched p.0) f.texts p.2)
