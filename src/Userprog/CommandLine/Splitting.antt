-- ===== src/Userprog/CommandLine/Splitting.antt =====
-- One round of the loop over the tokens of a command line, by what the line starts with.
use project2_group.Base.{
  ℕ, zero, suc, ◌+◌, ◌≡◌, refl, sym, ap, ◌∙◌, subst, arith, some, List, [], ◌∷◌, ◌++◌, map, ok,
  drop, drop-at, append-append, length, length-append, replicate,
}
use mathlib.Core.Path.{ap₂}
use project2_group.Clib.Text.Copy.{IsText}
use project2_group.Clib.Tokens.{strtok_r}
use project2_group.Clib.Tokens.Splitting.{IsWord}
use project2_group.Clib.Tokens.Cutting.{strtok_at_blank, strtok_at_space, strtok_at_end}
use project2_group.Userprog.Arguments.Strings.{
  Argument, bytes, text_of, IsArgument, AllArguments, AreBytes,
}
use project2_group.Userprog.CommandLine.{space, tokens}

-- What the loop leaves: the tokens are strings whose texts are `ws`.
pub record Finds (slots : ℕ) (object : List ℕ) (pre : List ℕ) (ws : List (List ℕ)) : Type 0 where
  pub offsets : List ℕ
  pub after : List ℕ
  pub args : List Argument
  pub run : tokens slots object (length pre) ≡ ok (offsets, pre ++ after)
  pub at_offsets : map (λ token. drop token (pre ++ after)) offsets ≡ map bytes args
  pub texts : map text_of args ≡ ws
  pub valid : AllArguments args

IsWord-IsText : (t : List ℕ) → IsWord t → IsText t
IsWord-IsText [] w = tt
IsWord-IsText (c ∷ t) (w, ws) = (w.1.0, IsWord-IsText t ws)

IsWord-AreBytes : (t : List ℕ) → IsWord t → AreBytes t
IsWord-AreBytes [] w = tt
IsWord-AreBytes (c ∷ t) (w, ws) = (w.1.1, IsWord-AreBytes t ws)

IsWord-IsArgument :
    (c : ℕ) (t rest : List ℕ) → IsWord (c ∷ t) → IsArgument (record { text = c ∷ t; rest = rest })
IsWord-IsArgument c t rest w = record {
  nonempty = omega arith;
  text = IsWord-IsText (c ∷ t) w;
  in_bytes = IsWord-AreBytes (c ∷ t) w;
}

pub no_tokens :
    (slots k : ℕ) (pre xs : List ℕ)
    → tokens slots (pre ++ (replicate k 32 ++ 0 ∷ xs)) (length pre)
      ≡ ok ([], pre ++ (replicate k 32 ++ 0 ∷ xs))
unfolding tokens
no_tokens zero k pre xs = let r = strtok_at_blank pre xs k in rw r.1 refl
no_tokens (suc slots) k pre xs = let r = strtok_at_blank pre xs k in rw r.1 refl

-- A call that finds a token, and the calls after it.
found :
    (slots k c s : ℕ) (pre t rest object object' offsets : List ℕ) (args : List Argument)
    (ws : List (List ℕ))
    → IsWord (c ∷ t)
    → strtok_r space object (length pre) ≡ ok (some (length (pre ++ replicate k 32)), object', s)
    → tokens slots object' s ≡ ok (offsets, (pre ++ replicate k 32) ++ ((c ∷ t) ++ 0 ∷ rest))
    → map (λ token. drop token ((pre ++ replicate k 32) ++ ((c ∷ t) ++ 0 ∷ rest))) offsets
      ≡ map bytes args
    → map text_of args ≡ ws
    → AllArguments args
    → Finds (suc slots) object pre ((c ∷ t) ∷ ws)
unfolding tokens
found slots k c s pre t rest object object' offsets args ws w call run at_offsets texts valid =
    let p = pre ++ replicate k 32 in
    let body = (c ∷ t) ++ 0 ∷ rest in
    let a : p ++ body ≡ pre ++ (replicate k 32 ++ body) = append-append pre (replicate k 32) body in
    record {
      offsets = length p ∷ offsets;
      after = replicate k 32 ++ body;
      args = record { text = c ∷ t; rest = rest } ∷ args;
      run = rw (call, run, a) refl;
      at_offsets =
          subst (λ o. map (λ token. drop token o) (length p ∷ offsets) ≡ body ∷ map bytes args) a
            (ap₂ ◌∷◌ (drop-at p body) at_offsets);
      texts = ap (◌∷◌ (c ∷ t)) texts;
      valid = (IsWord-IsArgument c t rest w, valid);
    }

-- The last token, after which the string ends.
pub last_token :
    (slots k c : ℕ) (pre t xs : List ℕ)
    → IsWord (c ∷ t)
    → Finds (suc slots) (pre ++ (replicate k 32 ++ ((c ∷ t) ++ 0 ∷ xs))) pre ((c ∷ t) ∷ [])
last_token slots k c pre t xs w =
    let p = pre ++ replicate k 32 in
    let a = append-append p (c ∷ t) (0 ∷ xs) in
    let l = length-append p (c ∷ t) in
    let n = no_tokens slots 0 (p ++ (c ∷ t)) xs in
    found slots k c (length p + length (c ∷ t)) pre t xs
      (pre ++ (replicate k 32 ++ ((c ∷ t) ++ 0 ∷ xs))) (p ++ ((c ∷ t) ++ 0 ∷ xs)) [] [] [] w
      (strtok_at_end pre t xs k c w) (rw (sym a, sym l) n) refl refl tt

-- A token that ends at a space.
pub next_token :
    (slots k c : ℕ) (pre t u xs : List ℕ) (ws : List (List ℕ))
    → IsWord (c ∷ t)
    → Finds slots
        ((pre ++ replicate k 32 ++ ((c ∷ t) ++ 0 ∷ [])) ++ (u ++ 0 ∷ xs))
        (pre ++ replicate k 32 ++ ((c ∷ t) ++ 0 ∷ []))
        ws
    → Finds
        (suc slots)
        (pre ++ (replicate k 32 ++ ((c ∷ t) ++ 32 ∷ (u ++ 0 ∷ xs))))
        pre
        ((c ∷ t) ∷ ws)
next_token slots k c pre t u xs ws w f =
    let p = pre ++ replicate k 32 in
    let word = (c ∷ t) ++ 0 ∷ [] in
    let join : (ys : List ℕ) → (p ++ word) ++ ys ≡ p ++ ((c ∷ t) ++ 0 ∷ ys) =
      λ ys. append-append p word ys ∙ ap (◌++◌ p) (append-append (c ∷ t) (0 ∷ []) ys) in
    let l : length (p ++ word) ≡ length p + length (c ∷ t) + 1 =
      omega (arith, length-append p word, length-append (c ∷ t) (0 ∷ [])) in
    found slots k c (length p + length (c ∷ t) + 1) pre t f.after
      (pre ++ (replicate k 32 ++ ((c ∷ t) ++ 32 ∷ (u ++ 0 ∷ xs))))
      (p ++ ((c ∷ t) ++ 0 ∷ (u ++ 0 ∷ xs))) f.offsets f.args ws w
      (strtok_at_space pre t (u ++ 0 ∷ xs) k c w)
      (rw (sym (join (u ++ 0 ∷ xs)), sym (join f.after), sym l) f.run)
      (subst (λ o. map (λ token. drop token o) f.offsets ≡ map bytes f.args) (join f.after)
        f.at_offsets)
      f.texts f.valid
