-- ===== src/Userprog/Arguments/Strings.antt =====
-- The strings that are pushed, and where they lie.
use project2_group.Base.{
  ℕ, zero, suc, ◌+◌, ◌-◌, ◌%◌, ◌≤◌, ◌<◌, ◌≡◌, refl, ap, ◌∙◌, subst, arith, List, [], ◌∷◌, ◌++◌, map,
  length, length-append, Run, ok, ◌>>=◌, take, drop, take-length, get_elem?, some,
}
use project2_group.Clib.Text.{strlen}
use project2_group.Clib.Text.Copy.{IsText, strlen_lem, take-append}
use project2_group.Userprog.Arguments.{Stack, push_byte, push_chars, push_string, push_strings}
use project2_group.Userprog.Arguments.Pushing.{
  IsPushed, IsClear, IsPushed-IsClear, IsPushed-then, Pushes, Pushes-then, nothing-IsPushed,
  push_byte-IsPushed,
}

-- All are values of a byte.
abbrev pub AreBytes : List ℕ → Type 0
AreBytes [] = Unit {0}
AreBytes (b ∷ bs) = (b < 256) × AreBytes bs

-- The last of the `k + 1` characters is what the loop pushes first.
take_last :
    (k : ℕ) (s rest : List ℕ)
    → k < length s
    → AreBytes s
    → (c : ℕ) × (get_elem? (s ++ rest) k ≡ some c)
      × (take k (s ++ rest) ++ (c % 256) ∷ [] ≡ take (suc k) (s ++ rest))
take_last k [] rest h b = absurd (omega arith)
take_last zero (x ∷ s) rest h (b, bs) =
    let e : x % 256 ≡ x = omega arith in (x, refl, ap (λ y. y ∷ []) e)
take_last (suc k) (x ∷ s) rest h (b, bs) =
    let r = take_last k s rest (omega arith) bs in (r.0, r.1, ap (◌∷◌ x) r.2)

push_chars-IsPushed :
    (k n : ℕ) (s rest : List ℕ) (st : Stack)
    → k ≤ length s
    → k ≤ n
    → AreBytes s
    → IsClear n st
    → Pushes (push_chars k (s ++ rest) st) st (take k (s ++ rest))
unfolding push_chars
push_chars-IsPushed zero n s rest st l h b c = (st, refl, nothing-IsPushed st)
push_chars-IsPushed (suc k) n s rest st l h b c =
    let r = take_last k s rest l b in
    rw r.1 (
      subst (Pushes (push_byte r.0 st >>= push_chars k (s ++ rest)) st) r.2 (
        Pushes-then (push_byte r.0 st) (push_chars k (s ++ rest)) n k st ((r.0 % 256) ∷ [])
          (take k (s ++ rest)) (omega arith) c (push_byte-IsPushed r.0 n st (omega arith) c)
          (λ st₁ l₁ c₁. push_chars-IsPushed k k s rest st₁ (omega arith) (omega arith) b c₁)))

-- A token, and the bytes after its terminator in the object that it lies in.
pub record Argument : Type 0 where
  pub text : List ℕ
  pub rest : List ℕ

abbrev pub text_of : Argument → List ℕ
text_of a = a.text

abbrev pub bytes : Argument → List ℕ
bytes a = a.text ++ 0 ∷ a.rest

abbrev pub stored : Argument → List ℕ
stored a = a.text ++ 0 ∷ []

pub record IsArgument (a : Argument) : Type 0 where
  pub nonempty : 0 < length a.text
  pub text : IsText a.text
  pub in_bytes : AreBytes a.text

abbrev pub AllArguments : List Argument → Type 0
AllArguments [] = Unit {0}
AllArguments (a ∷ args) = IsArgument a × AllArguments args

-- `strlen (args[count] + 1)`.
strlen_tail :
    (text rest : List ℕ)
    → 0 < length text
    → IsText text
    → strlen (drop 1 (text ++ 0 ∷ rest)) ≡ ok (length text - 1)
strlen_tail [] rest h t = absurd (omega arith)
strlen_tail (c ∷ text) rest h (n, t) = strlen_lem text rest t ∙ ap ok (omega arith)

pub push_string-IsPushed :
    (a : Argument) (n : ℕ) (st : Stack)
    → IsArgument a
    → length (stored a) ≤ n
    → IsClear n st
    → Pushes (push_string (bytes a) st) st (stored a)
unfolding push_string
push_string-IsPushed a n st i h c =
    let m = length a.text in
    let pos = i.nonempty in
    let l = length-append a.text (0 ∷ []) in
    let b = length-append a.text (0 ∷ a.rest) in
    let e : m - 1 + 1 ≡ m = omega arith in
    let taken : take m (bytes a) ≡ a.text =
      take-append m a.text (0 ∷ a.rest) (omega arith) ∙ take-length m a.text refl in
    Pushes-then (push_byte 0 st)
      (λ st₁. strlen (drop 1 (bytes a)) >>= λ k. push_chars (k + 1) (bytes a) st₁) n m st (0 ∷ [])
      a.text (omega arith) c (push_byte-IsPushed 0 n st (omega arith) c)
      (λ st₁ l₁ c₁.
        rw (strlen_tail a.text a.rest i.nonempty i.text, e)
          (subst (Pushes (push_chars m (bytes a) st₁) st₁) taken (
            push_chars-IsPushed m m a.text (0 ∷ a.rest) st₁ (omega arith) (omega arith) i.in_bytes
              c₁)))

-- The strings one after another.
abbrev pub strings : List Argument → List ℕ
strings [] = []
strings (a ∷ args) = stored a ++ strings args

-- The addresses of the strings, from the first one's on.
abbrev pub places : ℕ → List Argument → List ℕ
places p [] = []
places p (a ∷ args) = p ∷ places (p + length (stored a)) args

-- The strings have been pushed, and the addresses are theirs.
abbrev pub PushesStrings : Run (List ℕ × Stack) → Stack → List Argument → Type 0
PushesStrings r st args =
    (st' : Stack) × (r ≡ ok (places st'.esp args, st')) × IsPushed st st' (strings args)

pub push_strings-IsPushed :
    (args : List Argument) (n : ℕ) (st : Stack)
    → AllArguments args
    → length (strings args) ≤ n
    → IsClear n st
    → PushesStrings (push_strings (map bytes args) st) st args
unfolding push_strings
push_strings-IsPushed [] n st i h c = (st, refl, nothing-IsPushed st)
push_strings-IsPushed (a ∷ args) n st (i, is) h c =
    let l = length-append (stored a) (strings args) in
    let r : PushesStrings (push_strings (map bytes args) st) st args =
      push_strings-IsPushed args n st is (omega arith) c in
    let c₁ : IsClear (length (stored a)) r.0 =
      IsPushed-IsClear (length (stored a)) n (omega arith) r.2 c in
    let k : Pushes (push_string (bytes a) r.0) r.0 (stored a) =
      push_string-IsPushed a (length (stored a)) r.0 i (omega arith) c₁ in
    let e = k.2.esp in (k.0, rw (r.1, k.1) (rw e refl), IsPushed-then r.2 k.2)
