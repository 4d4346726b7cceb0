-- ===== src/Klib/Hash/Finding.antt =====
-- Searching the one bucket of an element is searching all the elements.
use project2_group.Base.{
  ℕ, ◌≡◌, refl, sym, ◌∙◌, subst, inl, inr, Bool, true, false, not, ◌&&◌, none, some, List, [], ◌∷◌,
  ◌++◌, Bool-cases, bool_clash, Shuffle, stay, skip, exchange, chain, some-injective, none_clash,
  if_true, if_false,
}
use project2_group.Klib.Hash.{same, find_elem}
use project2_group.Klib.Hash.Elements.{Mem}

-- What the user of a table promises of `hash` and `less`: "neither is less" is an equivalence, and equivalent
-- elements have the same hash value.
pub record IsKey (hash : ℕ → ℕ) (less : ℕ → ℕ → Bool) : Type 0 where
  pub irreflexive : (a : ℕ) → less a a ≡ false
  pub transitive : (a b c : ℕ) → same less a b ≡ true → same less b c ≡ true → same less a c ≡ true
  pub respects : (a b : ℕ) → same less a b ≡ true → hash a ≡ hash b

module _ (less : ℕ → ℕ → Bool) where
  pub same_comm : (a b : ℕ) → same less a b ≡ same less b a
  same_comm a b = flip (less a b) (less b a)
    where
      flip : (x y : Bool) → (not x && not y) ≡ (not y && not x)
      flip true true = refl
      flip true false = refl
      flip false true = refl
      flip false false = refl

  -- No element of the list is the same as `e`.
  abbrev pub Apart : ℕ → List ℕ → Type 0
  Apart e [] = Unit {0}
  Apart e (x ∷ xs) = (same less x e ≡ false) × Apart e xs

  abbrev pub Distinct : List ℕ → Type 0
  Distinct [] = Unit {0}
  Distinct (x ∷ xs) = Apart x xs × Distinct xs

  pub find-Apart : (xs : List ℕ) (e : ℕ) → Apart e xs → find_elem less xs e ≡ none
  unfolding find_elem
  find-Apart [] e a = refl
  find-Apart (x ∷ xs) e (h, a) = rw h (find-Apart xs e a)

  pub Apart-find : (xs : List ℕ) (e : ℕ) → find_elem less xs e ≡ none → Apart e xs
  unfolding find_elem
  Apart-find [] e h = tt
  Apart-find (x ∷ xs) e h = elim (Bool-cases (same less x e)) [
    | inl s ↦ none_clash (sym (if_true _ s h))
    | inr s ↦ (s, Apart-find xs e (if_false _ s h))
  ]

  pub Apart-Shuffle : (e : ℕ) (xs ys : List ℕ) → Shuffle xs ys → Apart e xs → Apart e ys
  Apart-Shuffle e _ _ (stay xs) a = a
  Apart-Shuffle e _ _ (skip x xs ys p) a = (a.0, Apart-Shuffle e xs ys p a.1)
  Apart-Shuffle e _ _ (exchange x y xs) a = (a.1.0, (a.0, a.1.1))
  Apart-Shuffle e _ _ (chain xs ys zs p q) a = Apart-Shuffle e ys zs q (Apart-Shuffle e xs ys p a)

  pub Distinct-Shuffle : (xs ys : List ℕ) → Shuffle xs ys → Distinct xs → Distinct ys
  Distinct-Shuffle _ _ (stay xs) d = d
  Distinct-Shuffle _ _ (skip x xs ys p) d =
      (Apart-Shuffle x xs ys p d.0, Distinct-Shuffle xs ys p d.1)
  Distinct-Shuffle _ _ (exchange x y xs) d = ((same_comm x y ∙ d.0.0, d.1.0), (d.0.1, d.1.1))
  Distinct-Shuffle _ _ (chain xs ys zs p q) d =
      Distinct-Shuffle ys zs q (Distinct-Shuffle xs ys p d)

  pub find-append_none :
      (xs ys : List ℕ) (e : ℕ) → Apart e xs → find_elem less (xs ++ ys) e ≡ find_elem less ys e
  unfolding find_elem
  find-append_none [] ys e a = refl
  find-append_none (x ∷ xs) ys e (h, a) = rw h (find-append_none xs ys e a)

  pub find-append_left :
      (xs ys : List ℕ) (e : ℕ) → Apart e ys → find_elem less (xs ++ ys) e ≡ find_elem less xs e
  unfolding find_elem
  find-append_left [] ys e a = find-Apart ys e a
  find-append_left (x ∷ xs) ys e a = elim (Bool-cases (same less x e)) [
    | inl s ↦ rw s refl
    | inr s ↦ rw s (find-append_left xs ys e a)
  ]

  pub Apart-append : (e : ℕ) (xs ys : List ℕ) → Apart e xs → Apart e ys → Apart e (xs ++ ys)
  Apart-append e [] ys a b = b
  Apart-append e (x ∷ xs) ys (h, a) b = (h, Apart-append e xs ys a b)

-- Elements that are found are in the list, and the same as what was sought.
pub find-Mem :
    (less : ℕ → ℕ → Bool) (xs : List ℕ) (e x : ℕ)
    → find_elem less xs e ≡ some x
    → Mem x xs × (same less x e ≡ true)
unfolding find_elem
find-Mem less [] e x h = none_clash h
find-Mem less (y ∷ ys) e x h = elim (Bool-cases (same less y e)) [
  | inl s ↦
      let q : y ≡ x = some-injective (if_true _ s h) in
      (inl (sym q), subst (λ z. same less z e ≡ true) q s)
  | inr s ↦ let (m, t) = find-Mem less ys e x (if_false _ s h) in (inr m, t)
]

module _ (hash : ℕ → ℕ) (less : ℕ → ℕ → Bool) (key : IsKey hash less) where
  -- The order of the elements does not matter if they are all different.
  pub find-Shuffle :
      (e : ℕ) (xs ys : List ℕ)
      → Shuffle xs ys
      → Distinct less xs
      → find_elem less xs e ≡ find_elem less ys e
  unfolding find_elem
  find-Shuffle e _ _ (stay xs) d = refl
  find-Shuffle e _ _ (skip x xs ys p) d = elim (Bool-cases (same less x e)) [
    | inl s ↦ rw s refl
    | inr s ↦ rw s (find-Shuffle e xs ys p d.1)
  ]
  find-Shuffle e _ _ (exchange x y xs) d = elim (Bool-cases (same less x e)) [
    | inl s ↦ elim (Bool-cases (same less y e)) [
      | inl s' ↦ bool_clash d.0.0 (key.transitive y e x s' (same_comm less e x ∙ s))
      | inr s' ↦ rw (s, s') refl
    ]
    | inr s ↦ rw s refl
  ]
  find-Shuffle e _ _ (chain xs ys zs p q) d =
      find-Shuffle e xs ys p d ∙ find-Shuffle e ys zs q (Distinct-Shuffle less xs ys p d)
