-- ===== src/Base/Middle.antt =====
-- The element of a list that stands after a known part.
use mathlib.Core.Path.{◌≡◌, refl, ap}
use mathlib.Core.List.{List, [], ◌∷◌, ◌++◌}
use mathlib.Core.Option.{some}
use project2_group.Base.Lists.{length, get_elem?, set, drop}

module _ {ℓ} {A : Type ℓ} where
  pub drop-at : (pre xs : List A) → drop (length pre) (pre ++ xs) ≡ xs
  drop-at [] xs = refl
  drop-at (p ∷ pre) xs = drop-at pre xs

  pub get_elem?-at : (pre xs : List A) (x : A) → get_elem? (pre ++ x ∷ xs) (length pre) ≡ some x
  get_elem?-at [] xs x = refl
  get_elem?-at (p ∷ pre) xs x = get_elem?-at pre xs x

  pub set-at : (pre xs : List A) (x y : A) → set (pre ++ x ∷ xs) (length pre) y ≡ pre ++ y ∷ xs
  set-at [] xs x y = refl
  set-at (p ∷ pre) xs x y = ap (◌∷◌ p) (set-at pre xs x y)

  pub append-append : (xs ys zs : List A) → (xs ++ ys) ++ zs ≡ xs ++ (ys ++ zs)
  append-append [] ys zs = refl
  append-append (x ∷ xs) ys zs = ap (◌∷◌ x) (append-append xs ys zs)
