-- ===== src/Userprog/CommandLine/Words.antt =====
-- The loop over the tokens of a command line finds its words.
use project2_group.Base.{
  ℕ, zero, suc, ◌≤◌, ◌≡◌, refl, sym, ap, ◌∙◌, subst, arith, true, List, [], ◌∷◌, ◌++◌, ==_iff,
  append-append, length, replicate,
}
use project2_group.Clib.Tokens.Splitting.{
  IsWord, IsLine, Shape, blank, starts, shape, at_boundary, words, words-spaces, words-blank,
  words-word,
}
use project2_group.Userprog.CommandLine.Splitting.{Finds, no_tokens, last_token, next_token}

blank_line :
    (slots k : ℕ) (pre s xs : List ℕ)
    → s ≡ replicate k 32
    → Finds slots (pre ++ (s ++ 0 ∷ xs)) pre (words s)
blank_line slots k pre s xs e =
    let n = no_tokens slots k pre xs in
    let none_left : words s ≡ [] = ap words e ∙ words-blank k in
    subst (λ s'. Finds slots (pre ++ (s' ++ 0 ∷ xs)) pre (words s)) (sym e)
      (record {
        offsets = [];
        after = replicate k 32 ++ 0 ∷ xs;
        args = [];
        run = n;
        at_offsets = refl;
        texts = sym none_left;
        valid = tt;
      })

-- What follows a token: the end of the string, or a space and the rest of the line.
after_token :
    (slots k c : ℕ) (pre t u xs : List ℕ)
    → IsWord (c ∷ t)
    → IsLine u
    → at_boundary u ≡ true
    → length (words u) ≤ slots
    → ((pre' s : List ℕ)
        → IsLine s
        → length (words s) ≤ slots
        → Finds slots (pre' ++ (s ++ 0 ∷ xs)) pre' (words s))
    → Finds
        (suc slots)
        (pre ++ (replicate k 32 ++ ((c ∷ t) ++ (u ++ 0 ∷ xs))))
        pre
        ((c ∷ t) ∷ words u)
unfolding words
after_token slots k c pre t [] xs w l b n ih = last_token slots k c pre t xs w
after_token slots k c pre t (d ∷ u) xs w l b n ih =
    let sp : d ≡ 32 = (==_iff d 32).0 b in
    let same : words (d ∷ u) ≡ words u = rw b refl in
    let p' = pre ++ replicate k 32 ++ ((c ∷ t) ++ 0 ∷ []) in
    let f : Finds slots (p' ++ (u ++ 0 ∷ xs)) p' (words u) =
      ih p' u l.1 (subst (λ ws. length ws ≤ slots) same n) in
    rw (same, sp) (next_token slots k c pre t u xs (words u) w f)

words_start :
    (s : List ℕ) (k c : ℕ) (t u : List ℕ)
    → IsWord (c ∷ t)
    → at_boundary u ≡ true
    → s ≡ replicate k 32 ++ ((c ∷ t) ++ u)
    → words s ≡ (c ∷ t) ∷ words u
words_start s k c t u w b e = ap words e ∙ words-spaces k ((c ∷ t) ++ u) ∙ words-word c t u w b

by_shape :
    (slots : ℕ) (pre s xs : List ℕ)
    → Shape s
    → length (words s) ≤ suc slots
    → ((pre' s : List ℕ)
        → IsLine s
        → length (words s) ≤ slots
        → Finds slots (pre' ++ (s ++ 0 ∷ xs)) pre' (words s))
    → Finds (suc slots) (pre ++ (s ++ 0 ∷ xs)) pre (words s)
by_shape slots pre s xs (blank k e) h ih = blank_line (suc slots) k pre s xs e
by_shape slots pre s xs (starts k c t u w l b e) h ih =
    let ws = words_start s k c t u w b e in
    let n = ap length ws in
    let o : s ++ 0 ∷ xs ≡ replicate k 32 ++ ((c ∷ t) ++ (u ++ 0 ∷ xs)) =
      ap (λ s'. s' ++ 0 ∷ xs) e
      ∙ append-append (replicate k 32) ((c ∷ t) ++ u) (0 ∷ xs)
      ∙ ap (◌++◌ (replicate k 32)) (append-append (c ∷ t) u (0 ∷ xs)) in
    rw (ws, o) (after_token slots k c pre t u xs w l b (omega arith) ih)

no_slots :
    (pre s xs : List ℕ)
    → Shape s
    → length (words s) ≤ 0
    → Finds 0 (pre ++ (s ++ 0 ∷ xs)) pre (words s)
no_slots pre s xs (blank k e) h = blank_line 0 k pre s xs e
no_slots pre s xs (starts k c t u w l b e) h =
    let ws = words_start s k c t u w b e in let n = ap length ws in absurd (omega arith)

-- For a line of bytes with at most `slots` words: the loop stores the offsets of strings that are its words.
pub tokens_lem :
    (slots : ℕ) (pre s xs : List ℕ)
    → IsLine s
    → length (words s) ≤ slots
    → Finds slots (pre ++ (s ++ 0 ∷ xs)) pre (words s)
tokens_lem zero pre s xs l h = no_slots pre s xs (shape s l) h
tokens_lem (suc slots) pre s xs l h =
    by_shape slots pre s xs (shape s l) h (λ pre' s' l' h'. tokens_lem slots pre' s' xs l' h')
