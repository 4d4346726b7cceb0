-- ===== src/Base/Splice.antt =====
-- Overwriting a part of a list.
use Prim.Native.Nat.{ℕ, zero, suc, ◌+◌, ◌-◌, ◌≤◌, ◌<◌}
use mathlib.Core.Path.{◌≡◌, refl, ap, ◌∙◌}
use mathlib.Core.Bool.{◌&&◌}
use mathlib.Core.List.{List, [], ◌∷◌, ◌++◌}
use native.Mathlib.Omega.{arith}
use project2_group.Base.Tests.{ltb, leb, if◌then◌else◌}
use project2_group.Base.Lists.{length, get_or, take, drop, length-append, length-take, length-drop}

-- memcpy (old + o, new, length new).
abbrev pub splice {ℓ} : {A : Type ℓ} → List A → ℕ → List A → List A
splice old o new = take o old ++ (new ++ drop (o + length new) old)

module _ {ℓ} {A : Type ℓ} where
  pub get_or-append :
      (xs ys : List A) (j : ℕ) (d : A)
      → get_or (xs ++ ys) j d
        ≡ (if ltb j (length xs) then get_or xs j d else get_or ys (j - length xs) d)
  get_or-append [] ys j d = ground arith
  get_or-append (x ∷ xs) ys zero d = ground arith
  get_or-append (x ∷ xs) ys (suc j) d = ground (arith, get_or-append xs ys j d)

  pub get_or-take :
      (n : ℕ) (xs : List A) (j : ℕ) (d : A) → j < n → get_or (take n xs) j d ≡ get_or xs j d
  get_or-take zero xs j d h = absurd (omega arith)
  get_or-take (suc n) [] j d h = refl
  get_or-take (suc n) (x ∷ xs) zero d h = refl
  get_or-take (suc n) (x ∷ xs) (suc j) d h = get_or-take n xs j d (omega arith)

  pub get_or-drop :
      (n : ℕ) (xs : List A) (j : ℕ) (d : A) → get_or (drop n xs) j d ≡ get_or xs (n + j) d
  get_or-drop zero xs j d = ap (λ k. get_or xs k d) (omega arith)
  get_or-drop (suc n) [] j d = refl
  get_or-drop (suc n) (x ∷ xs) j d =
      let e : suc (n + j) ≡ suc n + j = omega arith in
      get_or-drop n xs j d ∙ ap (λ k. get_or (x ∷ xs) k d) e

  pub length-splice :
      (old : List A) (o : ℕ) (new : List A)
      → o + length new ≤ length old
      → length (splice old o new) ≡ length old
  length-splice old o new h = omega (
    arith,
    length-append (take o old) (new ++ drop (o + length new) old),
    length-append new (drop (o + length new) old),
    length-take o old,
    length-drop (o + length new) old,
  )

-- Byte `j` after the overwriting.
pub get_or-splice :
    {A : Type 0} (old : List A) (o : ℕ) (new : List A) (j : ℕ) (d : A)
    → o + length new ≤ length old
    → get_or (splice old o new) j d
      ≡ (if leb o j && ltb j (o + length new) then get_or new (j - o) d else get_or old j d)
get_or-splice old o new j d h = ground (
  arith,
  get_or-append (take o old) (new ++ drop (o + length new) old) j d,
  get_or-append new (drop (o + length new) old) (j - o) d,
  length-take o old,
  get_or-take o old j d,
  get_or-drop (o + length new) old (j - o - length new) d,
)
