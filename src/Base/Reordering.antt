-- ===== src/Base/Reordering.antt =====
-- Lists with the same elements in another order, as the steps that reorder them.
use mathlib.Core.Path.{◌≡◌, refl, ◌∙◌}
use mathlib.Core.List.{List, [], ◌∷◌, ◌++◌, Perm}
use mathlib.Core.List.Perm
use native.Mathlib.Omega.{arith}
use project2_group.Base.Lists.{length}

pub data Shuffle {ℓ} {A : Type ℓ} : List A → List A → Type ℓ where
  stay : (xs : List A) → Shuffle xs xs
  skip : (x : A) (xs ys : List A) → Shuffle xs ys → Shuffle (x ∷ xs) (x ∷ ys)
  exchange : (x y : A) (xs : List A) → Shuffle (x ∷ y ∷ xs) (y ∷ x ∷ xs)
  chain : (xs ys zs : List A) → Shuffle xs ys → Shuffle ys zs → Shuffle xs zs

module _ {ℓ} {A : Type ℓ} where
  infixl 5 ◌▸◌
  abbrev pub ◌▸◌ : {xs ys zs : List A} → Shuffle xs ys → Shuffle ys zs → Shuffle xs zs
  p ▸ q = chain _ _ _ p q

  pub Shuffle-sym : {xs ys : List A} → Shuffle xs ys → Shuffle ys xs
  Shuffle-sym (stay xs) = stay xs
  Shuffle-sym (skip x xs ys p) = skip x ys xs (Shuffle-sym p)
  Shuffle-sym (exchange x y xs) = exchange y x xs
  Shuffle-sym (chain xs ys zs p q) = chain zs ys xs (Shuffle-sym q) (Shuffle-sym p)

  pub length-Shuffle : {xs ys : List A} → Shuffle xs ys → length xs ≡ length ys
  length-Shuffle (stay xs) = refl
  length-Shuffle (skip x xs ys p) = omega (arith, length-Shuffle p)
  length-Shuffle (exchange x y xs) = refl
  length-Shuffle (chain xs ys zs p q) = length-Shuffle p ∙ length-Shuffle q

  pub Shuffle-perm : {xs ys : List A} → Shuffle xs ys → Perm xs ys
  Shuffle-perm (stay xs) = Perm.refl xs
  Shuffle-perm (skip x xs ys p) = Perm.cons x (Shuffle-perm p)
  Shuffle-perm (exchange x y xs) = Perm.swap y x xs
  Shuffle-perm (chain xs ys zs p q) = Perm.trans (Shuffle-perm p) (Shuffle-perm q)

  -- An element moves to the front.
  pub middle-Shuffle : (xs : List A) (y : A) (ys : List A) → Shuffle (xs ++ y ∷ ys) (y ∷ xs ++ ys)
  middle-Shuffle [] y ys = stay _
  middle-Shuffle (x ∷ xs) y ys = skip x _ _ (middle-Shuffle xs y ys) ▸ exchange x y _

  pub append_left-Shuffle :
      (bs : List A) {xs ys : List A} → Shuffle xs ys → Shuffle (bs ++ xs) (bs ++ ys)
  append_left-Shuffle [] p = p
  append_left-Shuffle (b ∷ bs) p = skip b _ _ (append_left-Shuffle bs p)

  pub append_right-Shuffle :
      {xs ys : List A} (bs : List A) → Shuffle xs ys → Shuffle (xs ++ bs) (ys ++ bs)
  append_right-Shuffle bs (stay xs) = stay _
  append_right-Shuffle bs (skip x xs ys p) = skip x _ _ (append_right-Shuffle bs p)
  append_right-Shuffle bs (exchange x y xs) = exchange x y _
  append_right-Shuffle bs (chain xs ys zs p q) =
      chain _ _ _ (append_right-Shuffle bs p) (append_right-Shuffle bs q)

  pub blocks-Shuffle : (xs ys zs : List A) → Shuffle (xs ++ (ys ++ zs)) (ys ++ (xs ++ zs))
  blocks-Shuffle xs [] zs = stay _
  blocks-Shuffle xs (y ∷ ys) zs =
      middle-Shuffle xs y (ys ++ zs) ▸ skip y _ _ (blocks-Shuffle xs ys zs)
