-- ===== src/Base/Slices.antt =====
-- Runs of values of a function, and the parts of a list as such runs.
use Prim.Native.Nat.{ℕ, zero, suc, ◌+◌, ◌≤◌, ◌<◌}
use mathlib.Core.Path.{◌≡◌, refl, ap, ap₂, ◌∙◌}
use mathlib.Core.List.{List, [], ◌∷◌, ◌++◌}
use native.Mathlib.Omega.{arith}
use project2_group.Base.Lists.{length, get_or, take, drop}

-- f o, f (o + 1), …, n values.
abbrev pub slice {ℓ} : {A : Type ℓ} → (ℕ → A) → ℕ → ℕ → List A
slice f o zero = []
slice f o (suc n) = f o ∷ slice f (o + 1) n

module _ {ℓ} {A : Type ℓ} where
  pub length-slice : (f : ℕ → A) (o n : ℕ) → length (slice f o n) ≡ n
  length-slice f o zero = refl
  length-slice f o (suc n) = ap suc (length-slice f (o + 1) n)

  pub slice-congr :
      (f g : ℕ → A) (n o p : ℕ)
      → ((i : ℕ) → i < n → f (o + i) ≡ g (p + i))
      → slice f o n ≡ slice g p n
  slice-congr f g zero o p h = refl
  slice-congr f g (suc n) o p h =
      ap₂ ◌∷◌ (ap f (omega arith) ∙ h 0 (omega arith) ∙ ap g (omega arith)) (
        slice-congr f g n (o + 1) (p + 1)
          (λ i k. ap f (omega arith) ∙ h (suc i) (omega arith) ∙ ap g (omega arith)))

  pub slice-append :
      (f : ℕ → A) (n m o p : ℕ) → o + n ≡ p → slice f o n ++ slice f p m ≡ slice f o (n + m)
  slice-append f zero m o p e = ap₂ (slice f) (omega arith) (omega arith)
  slice-append f (suc n) m o p e =
      let e' : suc (n + m) ≡ suc n + m = omega arith in
      ap (◌∷◌ (f o)) (slice-append f n m (o + 1) p (omega arith)) ∙ ap (slice f o) e'

  slice-cons :
      (x : A) (xs : List A) (d : A) (o n : ℕ)
      → slice (λ i. get_or xs i d) o n ≡ slice (λ i. get_or (x ∷ xs) i d) (suc o) n
  slice-cons x xs d o n =
      slice-congr _ _ n o (suc o)
        λ i k. let e : suc (o + i) ≡ suc o + i = omega arith in ap (λ l. get_or (x ∷ xs) l d) e

  take-slice :
      (xs : List A) (d : A) (n : ℕ) → n ≤ length xs → take n xs ≡ slice (λ i. get_or xs i d) 0 n
  take-slice xs d zero h = refl
  take-slice [] d (suc n) h = absurd (omega arith)
  take-slice (x ∷ xs) d (suc n) h = ap (◌∷◌ x) (
      take-slice xs d n (omega arith)
      ∙ slice-cons x xs d 0 n
      ∙ slice-congr _ _ n 1 (0 + 1) (λ i k. refl))

  -- The `n` elements of a list from index `o` on.
  pub take-drop-slice :
      (xs : List A) (d : A) (o n : ℕ)
      → o + n ≤ length xs
      → take n (drop o xs) ≡ slice (λ i. get_or xs i d) o n
  take-drop-slice xs d zero n h = take-slice xs d n (omega arith)
  take-drop-slice [] d (suc o) zero h = refl
  take-drop-slice [] d (suc o) (suc n) h = absurd (omega arith)
  take-drop-slice (x ∷ xs) d (suc o) n h =
      take-drop-slice xs d o n (omega arith) ∙ slice-cons x xs d o n

  pub get_or-slice : (f : ℕ → A) (d : A) (n o i : ℕ) → i < n → get_or (slice f o n) i d ≡ f (o + i)
  get_or-slice f d zero o i h = absurd (omega arith)
  get_or-slice f d (suc n) o zero h = ap f (omega arith)
  get_or-slice f d (suc n) o (suc i) h =
      get_or-slice f d n (o + 1) i (omega arith) ∙ ap f (omega arith)
