-- ===== src/Clib/Sorting/Sorted.antt =====
-- `sort` sorts.
use mathlib.Core.List.{Perm}
use mathlib.Core.List.Perm
use project2_group.Base.{
  ℕ, zero, suc, ◌+◌, ◌/◌, ◌≤◌, ◌<◌, ◌≡◌, refl, sym, ◌∙◌, subst, inl, inr, List, Run, ok, ◌==◌,
  arith, length, Bool-cases,
}
use project2_group.Clib.Text.{Comparison}
use project2_group.Clib.Sorting.{build_heap, sort_heap, sort}
use project2_group.Clib.Sorting.Array.{elem, swapped, do_swap-ok, length-swapped, elem-swapped}
use project2_group.Clib.Sorting.Heapify.{
  IsRanked, key, IsHeapFrom, Keeps, Keeps-refl, Keeps-trans, swapped-Keeps, Floats, heapify-ok,
}

module _ (rank : ℕ → ℕ) where
  -- The first element of a heap has the highest key.
  root_most :
      (n cnt : ℕ) (a : List ℕ)
      → IsHeapFrom rank 1 cnt a
      → (c : ℕ) → c ≤ n
      → 1 ≤ c
      → c ≤ cnt
      → key rank a c ≤ key rank a 1
  root_most zero cnt a h c l k p = absurd (omega arith)
  root_most (suc n) cnt a h c l k p = elim (Bool-cases (c == 1)) [
    | inl e ↦ ground arith
    | inr e ↦
        let two : 2 ≤ c = ground arith in
        omega (
          arith,
          h c two p (omega (arith, two)),
          root_most n cnt a h (c / 2) (omega (arith, two)) (omega (arith, two))
              (omega (arith, two)),
        )
  ]

  -- The first `cnt` elements in order.
  abbrev pub IsSorted : ℕ → List ℕ → Type 0
  IsSorted cnt a = (c : ℕ) → 1 ≤ c → c < cnt → key rank a c ≤ key rank a (c + 1)

  -- The loop that takes the highest element off the heap: a heap of `i` elements, behind it elements in order
  -- that are not below any in the heap.
  pub record IsPartlySorted (i cnt : ℕ) (a : List ℕ) : Type 0 where
    pub heap : IsHeapFrom rank 1 i a
    pub tail : (c : ℕ) → i < c → c < cnt → key rank a c ≤ key rank a (c + 1)
    pub apart : (c d : ℕ) → 1 ≤ c → c ≤ i → i < d → d ≤ cnt → key rank a c ≤ key rank a d

  -- The outcome of sorting the first `cnt` elements of `a`.
  abbrev pub Sorts : ℕ → List ℕ → Run (List ℕ) → Type 0
  Sorts cnt a r =
      (b : List ℕ) × (r ≡ ok b)
      × Perm b a
      × IsSorted cnt b
      × ((k : ℕ) → cnt < k → elem b k ≡ elem a k)

  -- Sorting what an array was rearranged to sorts the array.
  Sorts-after :
      (cnt : ℕ) (a b : List ℕ) (r : Run (List ℕ))
      → Perm b a
      → ((k : ℕ) → cnt < k → elem b k ≡ elem a k)
      → Sorts cnt b r
      → Sorts cnt a r
  Sorts-after cnt a b r p f (c, e, q, s, g) = (c, e, Perm.trans q p, s, λ k h. g k h ∙ f k h)

module _ (compare : ℕ → ℕ → Comparison) (rank : ℕ → ℕ) (ranked : IsRanked compare rank) where
  build_heap-ok :
      (i cnt : ℕ) (a : List ℕ)
      → i ≤ cnt / 2
      → cnt ≤ length a
      → IsHeapFrom rank (i + 1) cnt a
      → Floats rank 1 cnt a (build_heap compare i a cnt)
  unfolding build_heap
  build_heap-ok zero cnt a h n o =
      (a, refl, (λ c x y z. o c x y (omega arith)), Keeps-refl rank cnt a)
  build_heap-ok (suc i) cnt a h n o =
      let (b, e, o', k) =
        heapify-ok compare rank ranked (suc i) cnt a (suc i) (omega arith) (omega arith) n (record {
          edges = λ c x y z w. o c x y (omega (arith, w));
          bridged = λ c y z x w. absurd (omega arith);
        }) in
      let (b', e', o'', k') =
        build_heap-ok i cnt b (omega arith) (omega (arith, n, k.size))
          (λ c x y z. o' c x y (omega arith)) in
      rw e (b', e', o'', Keeps-trans rank cnt a b b' k k')

  -- One element more is in its place after a round.
  taken_off :
      (i cnt : ℕ) (a b : List ℕ)
      → 1 ≤ i
      → suc i ≤ cnt
      → cnt ≤ length a
      → IsPartlySorted rank (suc i) cnt a
      → IsHeapFrom rank 1 i b
      → Keeps rank i (swapped a 1 (suc i)) b
      → IsPartlySorted rank i cnt b
  taken_off i cnt a b one h n w o k =
      let at = elem-swapped a 1 (suc i) (omega arith) (omega arith) (omega arith) (omega arith) in
      let root = root_most rank (suc i) (suc i) a w.heap in
      record {
        heap = o;
        tail = λ c x y.
            ground (
              arith,
              k.behind c x,
              k.behind (c + 1),
              at c,
              at (c + 1),
              w.tail c,
              w.apart 1 (c + 1),
            );
        apart = λ c d x y z t.
            subst (λ m. key rank b c ≤ rank m) (sym (k.behind d z))
              (k.bound (key rank (swapped a 1 (suc i)) d)
                (λ j p q.
                  ground (arith, at j, at d, root j, root (suc i), w.apart j d, w.apart (suc i) d))
                c x y);
      }

  sort_heap-ok :
      (i cnt : ℕ) (a : List ℕ)
      → i ≤ cnt
      → cnt ≤ length a
      → IsPartlySorted rank i cnt a
      → Sorts rank cnt a (sort_heap compare i a)
  unfolding sort_heap
  sort_heap-ok zero cnt a h n w =
      (a, refl, Perm.rfl, (λ c x y. w.tail c (omega arith) y), λ k z. refl)
  sort_heap-ok (suc zero) cnt a h n w =
      (a, refl, Perm.rfl, (λ c x y. ground (arith, w.tail c, w.apart c (c + 1))), λ k z. refl)
  sort_heap-ok (suc (suc i)) cnt a h n w =
      let at =
        elem-swapped a 1 (suc (suc i)) (omega arith) (omega arith) (omega arith) (omega arith) in
      let a' = swapped a 1 (suc (suc i)) in
      let size =
        length-swapped a 1 (suc (suc i)) (omega arith) (omega arith) (omega arith) (omega arith) in
      let kept =
        swapped-Keeps rank cnt a 1 (suc (suc i)) (omega arith) (omega arith) (omega arith)
          (omega arith) n in
      let (b, e, o, k) =
        heapify-ok compare rank ranked 1 (suc i) a' 1 (omega arith) (omega arith)
          (omega (arith, size))
          (record {
            edges = λ c x y z t. ground (arith, at c, at (c / 2), w.heap c);
            bridged = λ c y z x t. absurd (omega arith);
          }) in
      rw (do_swap-ok a 1 (suc (suc i)) (omega arith) (omega arith) (omega arith) (omega arith), e)
        (Sorts-after rank cnt a a' _ kept.perm kept.behind (
          Sorts-after rank cnt a' b _ k.perm (λ j z. k.behind j (omega arith))
            (sort_heap-ok (suc i) cnt b (omega arith) (omega (arith, k.size, size))
              (taken_off (suc i) cnt a b (omega arith) h n w o k))))

  -- For an array of at least `cnt` elements and a comparison that orders elements by their ranks: `sort` returns
  -- an array that is a rearrangement of the old one, with the first `cnt` elements in order and those behind
  -- them where they were.
  pub sort_lem : (a : List ℕ) (cnt : ℕ) → cnt ≤ length a → Sorts rank cnt a (sort compare a cnt)
  unfolding sort
  sort_lem a cnt n =
      let (b, e, o, k) =
        build_heap-ok (cnt / 2) cnt a (omega arith) n (λ c x y z. absurd (omega arith)) in
      rw e (
        Sorts-after rank cnt a b _ k.perm k.behind (
          sort_heap-ok cnt cnt b (omega arith) (omega (arith, n, k.size)) (record {
            heap = o;
            tail = λ c x y. absurd (omega arith);
            apart = λ c d x y z t. absurd (omega arith);
          })))
