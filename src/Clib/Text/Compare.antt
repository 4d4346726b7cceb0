-- ===== src/Clib/Text/Compare.antt =====
-- The comparison of terminated strings is an order in which only equal strings are equal.
use project2_group.Base.{
  ℕ, ◌≡◌, ◌≢◌, ◌↔◌, refl, sym, ap, inl, inr, false, List, [], ◌∷◌, ◌++◌, ok, ltb, ◌==◌, arith,
  ne_test, Bool-cases, ==_iff, bool_clash,
}
use project2_group.Clib.Text.{Comparison, negative, equal, positive, strcmp}
use project2_group.Clib.Text.Copy.{IsText}

abbrev pub opposite : Comparison → Comparison
opposite negative = positive
opposite equal = equal
opposite positive = negative

tails : List ℕ → List ℕ
tails [] = []
tails (x ∷ xs) = xs

tail_eq : {x y : ℕ} {s t : List ℕ} → (x ∷ s) ≡ (y ∷ t) → s ≡ t
unfolding tails
tail_eq e = ap tails e

heads : List ℕ → ℕ
heads [] = 0
heads (x ∷ xs) = x

head_eq : {x y : ℕ} {s t : List ℕ} → (x ∷ s) ≡ (y ∷ t) → x ≡ y
unfolding heads
head_eq e = ap heads e

-- Strings that differ in their first characters.
differ :
    (x y : ℕ) (s t rest rest' : List ℕ)
    → x ≢ 0
    → y ≢ 0
    → (x == y) ≡ false
    → (c : Comparison) × (strcmp ((x ∷ s) ++ 0 ∷ rest) ((y ∷ t) ++ 0 ∷ rest') ≡ ok c)
      × (strcmp ((y ∷ t) ++ 0 ∷ rest') ((x ∷ s) ++ 0 ∷ rest) ≡ ok (opposite c))
      × ((c ≡ equal) ↔ ((x ∷ s) ≡ (y ∷ t)))
unfolding strcmp
differ x y s t rest rest' n m e = elim (Bool-cases (ltb x y)) [
  | inl below ↦ (
    negative,
    ground arith,
    ground arith,
    ((λ z. cc), (λ z. bool_clash e ((==_iff x y).1 (head_eq z)))),
  )
  | inr above ↦ (
    positive,
    ground arith,
    ground arith,
    ((λ z. cc), (λ z. bool_clash e ((==_iff x y).1 (head_eq z)))),
  )
]

-- For two terminated strings `strcmp` returns; it returns 0 exactly if they are the same, and with the strings
-- exchanged it returns the opposite.
pub strcmp_lem :
    (s t rest rest' : List ℕ)
    → IsText s
    → IsText t
    → (c : Comparison) × (strcmp (s ++ 0 ∷ rest) (t ++ 0 ∷ rest') ≡ ok c)
      × (strcmp (t ++ 0 ∷ rest') (s ++ 0 ∷ rest) ≡ ok (opposite c))
      × ((c ≡ equal) ↔ (s ≡ t))
unfolding strcmp
strcmp_lem [] [] rest rest' h k = (equal, refl, refl, ((λ e. refl), (λ e. refl)))
strcmp_lem [] (y ∷ t) rest rest' h (n, k) =
    (negative, ground arith, ground arith, ((λ e. cc), (λ e. cc)))
strcmp_lem (x ∷ s) [] rest rest' (n, h) k =
    (positive, ground arith, ground arith, ((λ e. cc), (λ e. cc)))
strcmp_lem (x ∷ s) (y ∷ t) rest rest' (n, h) (m, k) = elim (Bool-cases (x == y)) [
  | inl e ↦
      let (c, q, r, iff) = strcmp_lem s t rest rest' h k in
      let same : x ≡ y = (==_iff x y).0 e in
      (
        c,
        rw (ne_test x 0 n, e) q,
        rw (ne_test y 0 m, (==_iff y x).1 (sym same)) r,
        ((λ z. rw (same, iff.0 z) refl), (λ z. iff.1 (tail_eq z))),
      )
  | inr e ↦ differ x y s t rest rest' n m e
]
