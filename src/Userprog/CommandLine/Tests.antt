-- ===== src/Userprog/CommandLine/Tests.antt =====
-- A run on a command line of two words.
use project2_group.Base.{ℕ, ◌≡◌, refl, arith, List, [], ◌∷◌, ◌++◌, ok, fault}
use project2_group.Clib.Text.{strchr}
use project2_group.Clib.Text.Copy.{IsText}
use project2_group.Clib.Tokens.{strtok_r, skip_delimiters, skip_token, cut_token}
use project2_group.Clib.Tokens.Splitting.{IsLine, words}
use project2_group.Userprog.Arguments.{Stack, phys_base}
use project2_group.Userprog.Arguments.Pushing.{IsClear}
use project2_group.Userprog.Arguments.Launch.{IsLaunched}
use project2_group.Userprog.CommandLine.{tokens, push_tokens, push_command_line}
use project2_group.Userprog.CommandLine.Overflow.{push_command_line_overflows}
use project2_group.Userprog.CommandLine.Launching.{push_tokens_lem}

-- " a  bc"
abbrev line : List ℕ
line = 32 ∷ 97 ∷ 32 ∷ 32 ∷ 98 ∷ 99 ∷ []

abbrev start : Stack
start = record { esp = phys_base; memory = λ q. 0 }

start-IsClear : IsClear 4096 start
start-IsClear = record { room = omega arith; bound = omega arith; zeros = λ q l. refl }

tokens_test : tokens 130 (line ++ 0 ∷ []) 0 ≡ ok (1 ∷ 4 ∷ [], 32 ∷ 97 ∷ 0 ∷ 32 ∷ 98 ∷ 99 ∷ 0 ∷ [])
unfolding tokens strtok_r skip_delimiters skip_token cut_token strchr
tokens_test = refl

line-IsLine : IsLine line
line-IsLine = (
  ((λ e. omega arith), omega arith),
  (
    ((λ e. omega arith), omega arith),
    (
      ((λ e. omega arith), omega arith),
      (
        ((λ e. omega arith), omega arith),
        (((λ e. omega arith), omega arith), (((λ e. omega arith), omega arith), tt)),
      ),
    ),
  ),
)

line-IsText : IsText line
line-IsText = (
  (λ e. omega arith),
  (
    (λ e. omega arith),
    ((λ e. omega arith), ((λ e. omega arith), ((λ e. omega arith), ((λ e. omega arith), tt)))),
  ),
)

push_tokens_lem_example :
    (st' : Stack) × (push_tokens 0 (line ++ 0 ∷ 7 ∷ []) start ≡ ok st')
    × IsLaunched st' ((97 ∷ []) ∷ (98 ∷ 99 ∷ []) ∷ [])
unfolding words
push_tokens_lem_example =
    push_tokens_lem 0 line (7 ∷ []) start line-IsLine (omega arith) (omega arith) start-IsClear

push_command_line_overflows_example : push_command_line 0 (λ i. 7) (line ++ 0 ∷ []) start ≡ fault
push_command_line_overflows_example =
    push_command_line_overflows 0 (λ i. 7) line [] start line-IsText
