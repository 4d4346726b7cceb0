-- ===== src/Clib/Tokens/Splitting.antt =====
-- The tokens of a string are its words.
use project2_group.Base.{
  ℕ, zero, suc, ◌+◌, ◌≡◌, ◌≢◌, ◌<◌, replicate, Bool-cases, refl, sym, ap, ◌∙◌, inl, inr, arith, ◌⊎◌,
  Bool, true, false, none, some, List, [], ◌∷◌, ◌++◌, ok, ◌==◌, ==_iff, ne_test, if◌then◌else◌,
  length,
}
use mathlib.Core.Path.{ap₂}
use project2_group.Clib.Text.{strchr}
use project2_group.Clib.Tokens.{at_terminator, at_token, skip_delimiters, skip_token}

-- A string that holds one space.
abbrev pub space : List ℕ
space = 32 ∷ 0 ∷ []

-- The characters up to the first space, and what follows that space.
abbrev pub first_word : List ℕ → List ℕ
first_word [] = []
first_word (c ∷ s) = if c == 32 then [] else c ∷ first_word s

strchr-space : strchr space 32 ≡ ok (some 0)
unfolding strchr
strchr-space = refl

strchr-zero : strchr space 0 ≡ ok (some 1)
unfolding strchr
strchr-zero = refl

strchr-other : (c : ℕ) → c ≢ 32 → c ≢ 0 → strchr space c ≡ ok none
unfolding strchr
strchr-other c d n = rw (ne_test 32 c (λ e. d (sym e)), ne_test 0 c (λ e. n (sym e))) refl

-- The end, or a space, comes first.
abbrev pub at_boundary : List ℕ → Bool
at_boundary [] = true
at_boundary (c ∷ s) = c == 32

-- A character before the first word.
abbrev pub extend : ℕ → List (List ℕ) → List (List ℕ)
extend c [] = (c ∷ []) ∷ []
extend c (w ∷ ws) = (c ∷ w) ∷ ws

-- The maximal runs of characters other than the space.
unfoldable pub words : List ℕ → List (List ℕ)
words [] = []
words (c ∷ s) =
    let rest = words s in
    if c == 32 then rest else if at_boundary s then (c ∷ []) ∷ rest else extend c rest

-- A string of bytes with no 0.
abbrev pub IsLine : List ℕ → Type 0
IsLine [] = Unit {0}
IsLine (c ∷ s) = ((c ≢ 0) × (c < 256)) × IsLine s

-- A string of bytes with no 0 and no space.
abbrev pub IsWord : List ℕ → Type 0
IsWord [] = Unit {0}
IsWord (c ∷ s) = ((c ≢ 32) × ((c ≢ 0) × (c < 256))) × IsWord s

pub spaces : ℕ → List ℕ
spaces k = replicate k 32

-- Spaces only; or spaces, a word, and what follows it.
pub data Shape (s : List ℕ) : Type 0 where
  blank : (k : ℕ) → s ≡ replicate k 32 → Shape s
  starts :
      (k : ℕ) (c : ℕ) (t u : List ℕ)
      → IsWord (c ∷ t)
      → IsLine u
      → at_boundary u ≡ true
      → s ≡ replicate k 32 ++ ((c ∷ t) ++ u)
      → Shape s

after_space : (c : ℕ) (s : List ℕ) → c ≡ 32 → Shape s → Shape (c ∷ s)
after_space c s i (blank k e) = blank (suc k) (ap₂ ◌∷◌ i e)
after_space c s i (starts k d t u w l b e) = starts (suc k) d t u w l b (ap₂ ◌∷◌ i e)

-- A character before a word lengthens it.
in_word :
    (c : ℕ) (s : List ℕ)
    → (c ≢ 32) × ((c ≢ 0) × (c < 256))
    → at_boundary s ≡ false
    → Shape s
    → Shape (c ∷ s)
in_word c s h f (blank zero e) = absurd (let g = ap at_boundary e in cc)
in_word c s h f (blank (suc k) e) = absurd (let g = ap at_boundary e in cc)
in_word c s h f (starts zero d t u w l b e) = starts 0 c (d ∷ t) u (h, w) l b (ap (◌∷◌ c) e)
in_word c s h f (starts (suc k) d t u w l b e) = absurd (let g = ap at_boundary e in cc)

pub shape : (s : List ℕ) → IsLine s → Shape s
shape [] l = blank 0 refl
shape (c ∷ s) (n, l) =
    let rest = shape s l in
    elim (Bool-cases (c == 32)) [
      | inl i ↦ after_space c s ((==_iff c 32).0 i) rest
      | inr o ↦
          let other : c ≢ 32 = ground arith in
          elim (Bool-cases (at_boundary s)) [
            | inl b ↦ starts 0 c [] s ((other, n), tt) l b refl
            | inr b ↦ in_word c s (other, n) b rest
          ]
    ]

pub words-spaces : (k : ℕ) (s : List ℕ) → words (replicate k 32 ++ s) ≡ words s
unfolding words
words-spaces zero s = refl
words-spaces (suc k) s = words-spaces k s

pub words-blank : (k : ℕ) → words (replicate k 32) ≡ []
unfolding words
words-blank zero = refl
words-blank (suc k) = words-blank k

words_end :
    (c : ℕ) (s : List ℕ) → c ≢ 32 → at_boundary s ≡ true → words (c ∷ s) ≡ (c ∷ []) ∷ words s
unfolding words
words_end c s h b = rw (ne_test c 32 h, b) refl

words_more :
    (c : ℕ) (s : List ℕ) → c ≢ 32 → at_boundary s ≡ false → words (c ∷ s) ≡ extend c (words s)
unfolding words
words_more c s h b = rw (ne_test c 32 h, b) refl

pub words-word :
    (c : ℕ) (t u : List ℕ)
    → IsWord (c ∷ t)
    → at_boundary u ≡ true
    → words ((c ∷ t) ++ u) ≡ (c ∷ t) ∷ words u
words-word c [] u (w, ws) b = words_end c u w.0 b
words-word c (d ∷ t) u (w, ws) b =
    words_more c (d ∷ (t ++ u)) w.0 (ne_test d 32 ws.0.0) ∙ ap (extend c) (words-word d t u ws b)

-- The loops.

pub skip_delimiters-terminator :
    (k i : ℕ) (xs : List ℕ)
    → skip_delimiters space (replicate k 32 ++ 0 ∷ xs) i ≡ ok (at_terminator (i + k))
unfolding skip_delimiters
skip_delimiters-terminator zero i xs = rw strchr-zero (ap (λ n. ok (at_terminator n)) (omega arith))
skip_delimiters-terminator (suc k) i xs =
    rw (strchr-space, skip_delimiters-terminator k (i + 1) xs)
      (ap (λ n. ok (at_terminator n)) (omega arith))

pub skip_delimiters-token :
    (k i c : ℕ) (xs : List ℕ)
    → c ≢ 32
    → c ≢ 0
    → skip_delimiters space (replicate k 32 ++ c ∷ xs) i ≡ ok (at_token (i + k))
unfolding skip_delimiters
skip_delimiters-token zero i c xs d n =
    rw (strchr-other c d n) (ap (λ m. ok (at_token m)) (omega arith))
skip_delimiters-token (suc k) i c xs d n =
    rw (strchr-space, skip_delimiters-token k (i + 1) c xs d n)
      (ap (λ m. ok (at_token m)) (omega arith))

pub skip_token_lem :
    (t : List ℕ) (c i : ℕ) (xs : List ℕ)
    → IsWord t
    → (c ≡ 32) ⊎ (c ≡ 0)
    → skip_token space (t ++ c ∷ xs) i ≡ ok (i + length t)
unfolding skip_token
skip_token_lem [] c i xs w (inl e) = rw (e, strchr-space) (ap ok (omega arith))
skip_token_lem [] c i xs w (inr e) = rw (e, strchr-zero) (ap ok (omega arith))
skip_token_lem (d ∷ t) c i xs (w, ws) e =
    rw (strchr-other d w.0 w.1.0, skip_token_lem t c (i + 1) xs ws e) (ap ok (omega arith))
