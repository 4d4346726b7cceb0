-- ===== src/Clib/Sorting/Array.antt =====
-- Swapping two elements of an array.
use mathlib.Core.List.{Perm}
use mathlib.Core.List.Perm
use project2_group.Base.{
  ℕ, zero, suc, ◌-◌, ◌≤◌, ◌<◌, ◌≡◌, refl, ◌∙◌, List, [], ◌∷◌, ok, ◌==◌, if◌then◌else◌, arith,
  length, get_or, set, length-set, get_elem?-eq-get_or, get_or-set_self, get_or-set_ne,
}
use project2_group.Clib.Sorting.{do_swap}

-- The element with 1-based index `k`.
abbrev pub elem : List ℕ → ℕ → ℕ
elem a k = get_or a (k - 1) 0

abbrev pub swapped : List ℕ → ℕ → ℕ → List ℕ
swapped a i j = set (set a (i - 1) (elem a j)) (j - 1) (elem a i)

-- A write trades the old element for the new one.
set-perm : (a : List ℕ) (i v : ℕ) → i < length a → Perm (get_or a i 0 ∷ set a i v) (v ∷ a)
set-perm [] i v h = absurd (omega arith)
set-perm (x ∷ a) zero v h = Perm.swap v x a
set-perm (x ∷ a) (suc i) v h =
    Perm.trans (Perm.swap x (get_or a i 0) (set a i v))
      (Perm.trans (Perm.cons x (set-perm a i v (omega arith))) (Perm.swap v x a))

pub get_or-set :
    (a : List ℕ) (i j v : ℕ)
    → i < length a
    → get_or (set a i v) j 0 ≡ (if i == j then v else get_or a j 0)
get_or-set a i j v h = ground (arith, get_or-set_self a i v 0 h, get_or-set_ne a i j v 0)

module _ (a : List ℕ) (i j : ℕ) (lo : 1 ≤ i) (hi : i ≤ length a) (lo' : 1 ≤ j)
    (hi' : j ≤ length a) where
  pub do_swap-ok : do_swap a i j ≡ ok (swapped a i j)
  unfolding do_swap
  do_swap-ok =
      rw
        (
          get_elem?-eq-get_or a (i - 1) 0 (omega arith),
          get_elem?-eq-get_or a (j - 1) 0 (omega arith),
        )
        refl

  pub length-swapped : length (swapped a i j) ≡ length a
  length-swapped = length-set (set a (i - 1) (elem a j)) (j - 1) _ ∙ length-set a (i - 1) _

  pub elem-swapped :
      (k : ℕ)
      → 1 ≤ k
      → elem (swapped a i j) k
        ≡ (if k == j then elem a i else if k == i then elem a j else elem a k)
  elem-swapped k h = ground (
    arith,
    get_or-set (set a (i - 1) (elem a j)) (j - 1) (k - 1) (elem a i)
        (omega (arith, length-set a (i - 1) (elem a j))),
    get_or-set a (i - 1) (k - 1) (elem a j) (omega arith),
  )

  pub swapped-perm : Perm (swapped a i j) a
  swapped-perm =
      let b = set a (i - 1) (elem a j) in
      let kept : get_or b (j - 1) 0 ≡ elem a j =
        ground (arith, get_or-set a (i - 1) (j - 1) (elem a j) (omega arith)) in
      let second =
        rw kept at
          (set-perm b (j - 1) (elem a i) (omega (arith, length-set a (i - 1) (elem a j)))) in
      Perm.cons_inv (Perm.trans second (set-perm a (i - 1) (elem a j) (omega arith)))
