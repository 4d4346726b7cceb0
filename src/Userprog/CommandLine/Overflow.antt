-- ===== src/Userprog/CommandLine/Overflow.antt =====
-- The array for the copy of the command line has no room for the terminator.
use project2_group.Base.{
  ℕ, zero, suc, ◌+◌, ◌-◌, ◌≤◌, ◌≡◌, refl, arith, true, List, [], ◌∷◌, ◌++◌, fault, ltb, length,
  length-append, length-drop, length-take, take, drop, slice, length-slice,
}
use project2_group.Clib.Text.{strlcpy, put}
use project2_group.Clib.Text.Copy.{IsText, strlen_lem, memcpy_lem}
use project2_group.Filesys.Inode.{lesser}
use project2_group.Userprog.Arguments.{Stack}
use project2_group.Userprog.CommandLine.{copy_command_line, push_command_line}

put_behind : (xs : List ℕ) (i c : ℕ) → length xs ≤ i → put xs i c ≡ fault
unfolding put
put_behind [] i c h = refl
put_behind (x ∷ xs) zero c h = absurd (omega arith)
put_behind (x ∷ xs) (suc i) c h = rw (put_behind xs i c (omega arith)) refl

-- A destination of as many bytes as the string has.
strlcpy_short :
    (dst s rest : List ℕ)
    → IsText s
    → length dst ≡ length s
    → strlcpy dst (s ++ 0 ∷ rest) (length s + 1) ≡ fault
unfolding strlcpy
strlcpy_short dst s rest t e =
    let n = length s in
    let room : ltb 0 (n + 1) ≡ true = ground arith in
    let all : lesser n (n + 1 - 1) ≡ n = ground arith in
    let src = length-append s (0 ∷ rest) in
    let copied = memcpy_lem n dst (s ++ 0 ∷ rest) (omega arith) (omega arith) in
    let full : length (take n (s ++ 0 ∷ rest) ++ drop n dst) ≤ n = omega (
      arith,
      length-append (take n (s ++ 0 ∷ rest)) (drop n dst),
      length-take n (s ++ 0 ∷ rest),
      length-drop n dst,
    ) in
    rw
      (
        strlen_lem s rest t,
        room,
        all,
        copied,
        put_behind (take n (s ++ 0 ∷ rest) ++ drop n dst) n 0 full,
      )
      refl

-- For every command line, whatever the array for its copy holds before: the copy in `setup_stack` writes behind the
-- end of that array, which is a byte too short.
pub push_command_line_overflows :
    (ret : ℕ) (junk : ℕ → ℕ) (line rest : List ℕ) (st : Stack)
    → IsText line
    → push_command_line ret junk (line ++ 0 ∷ rest) st ≡ fault
unfolding push_command_line copy_command_line
push_command_line_overflows ret junk line rest st t =
    rw
      (
        strlen_lem line rest t,
        strlcpy_short (slice junk 0 (length line)) line rest t (length-slice junk 0 (length line)),
      )
      refl
