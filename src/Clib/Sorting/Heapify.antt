-- ===== src/Clib/Sorting/Heapify.antt =====
-- Floating an element down restores the heap order.
use mathlib.Core.List.{Perm}
use mathlib.Core.List.Perm
use project2_group.Base.{
  ℕ, zero, suc, ◌+◌, ◌-◌, ◌*◌, ◌/◌, ◌%◌, ◌≤◌, ◌<◌, ◌≡◌, ◌≢◌, refl, ◌∙◌, subst, inl, inr, ◌⊎◌, ◌&&◌,
  List, Run, ok, ◌>>=◌, ◌==◌, if◌then◌else◌, arith, length, get_elem?-eq-get_or, leb, ltb,
  Bool-cases, ==_iff, ne_test,
}
use project2_group.Clib.Text.{Comparison}
use project2_group.Clib.Sorting.{
  is_positive, is_negative, do_compare, larger, heapify_loop, heapify, do_swap,
}
use project2_group.Clib.Sorting.Array.{
  elem, swapped, do_swap-ok, length-swapped, elem-swapped, swapped-perm,
}

-- `compare` orders the elements by the number `rank` gives them.
pub record IsRanked (compare : ℕ → ℕ → Comparison) (rank : ℕ → ℕ) : Type 0 where
  pub above : (a b : ℕ) → is_positive (compare a b) ≡ ltb (rank b) (rank a)
  pub below : (a b : ℕ) → is_negative (compare a b) ≡ ltb (rank a) (rank b)

module _ (rank : ℕ → ℕ) where
  abbrev pub key : List ℕ → ℕ → ℕ
  key a k = rank (elem a k)

  -- No element of the first `cnt` is above its parent, for parents from `lo` on.
  abbrev pub IsHeapFrom : ℕ → ℕ → List ℕ → Type 0
  IsHeapFrom lo cnt a = (c : ℕ) → 2 ≤ c → c ≤ cnt → lo ≤ c / 2 → key a c ≤ key a (c / 2)

  -- The same, but for the children of `i`, which are not above the parent of `i`.
  pub record IsFloating (lo cnt : ℕ) (a : List ℕ) (i : ℕ) : Type 0 where
    pub edges : (c : ℕ) → 2 ≤ c → c ≤ cnt → lo ≤ c / 2 → c / 2 ≢ i → key a c ≤ key a (c / 2)
    pub bridged : (c : ℕ) → c ≤ cnt → c / 2 ≡ i → 2 ≤ i → lo ≤ i / 2 → key a c ≤ key a (i / 2)

  -- What stays of the array `a` in `b`: its elements, those behind `cnt` in their places, and every bound on the
  -- first `cnt`.
  pub record Keeps (cnt : ℕ) (a b : List ℕ) : Type 0 where
    pub size : length b ≡ length a
    pub perm : Perm b a
    pub behind : (k : ℕ) → cnt < k → elem b k ≡ elem a k
    pub bound :
        (m : ℕ)
        → ((k : ℕ) → 1 ≤ k → k ≤ cnt → key a k ≤ m)
        → (k : ℕ) → 1 ≤ k
        → k ≤ cnt
        → key b k ≤ m

  -- What a floating element of `a` comes to.
  abbrev pub Floats : ℕ → ℕ → List ℕ → Run (List ℕ) → Type 0
  Floats lo cnt a r = (b : List ℕ) × (r ≡ ok b) × IsHeapFrom lo cnt b × Keeps cnt a b

  pub Keeps-refl : (cnt : ℕ) (a : List ℕ) → Keeps cnt a a
  Keeps-refl cnt a = record { size = refl; perm = Perm.rfl; behind = λ k h. refl; bound = λ m h. h }

  pub Keeps-trans : (cnt : ℕ) (a b c : List ℕ) → Keeps cnt a b → Keeps cnt b c → Keeps cnt a c
  Keeps-trans cnt a b c s t = record {
    size = t.size ∙ s.size;
    perm = Perm.trans t.perm s.perm;
    behind = λ k h. t.behind k h ∙ s.behind k h;
    bound = λ m h. t.bound m (s.bound m h);
  }

  pub swapped-Keeps :
      (cnt : ℕ) (a : List ℕ) (i j : ℕ)
      → 1 ≤ i
      → i ≤ cnt
      → 1 ≤ j
      → j ≤ cnt
      → cnt ≤ length a
      → Keeps cnt a (swapped a i j)
  swapped-Keeps cnt a i j h h' k k' n =
      let at = elem-swapped a i j h (omega arith) k (omega arith) in
      record {
        size = length-swapped a i j h (omega arith) k (omega arith);
        perm = swapped-perm a i j h (omega arith) k (omega arith);
        behind = λ c p. ground (arith, at c);
        bound = λ m b c p q. ground (arith, at c, b c, b i, b j);
      }

  -- `m` is `i` or the child of `i` with the highest key, if that is above `i`.
  pub record IsLargest (cnt : ℕ) (a : List ℕ) (i m : ℕ) : Type 0 where
    pub inside : m ≤ cnt
    pub child : (m ≡ i) ⊎ ((m / 2 ≡ i) × (i < m) × (key a i < key a m))
    pub most : (c : ℕ) → 2 ≤ c → c ≤ cnt → c / 2 ≡ i → key a c ≤ key a m

  swapped-IsFloating :
      (lo cnt : ℕ) (a : List ℕ) (i m : ℕ)
      → 1 ≤ i
      → cnt ≤ length a
      → IsFloating lo cnt a i
      → IsLargest cnt a i m
      → m / 2 ≡ i
      → i < m
      → key a i < key a m
      → IsFloating lo cnt (swapped a i m) m
  swapped-IsFloating lo cnt a i m h n v s p q r =
      let at =
        elem-swapped a i m h (omega (arith, s.inside)) (omega arith) (omega (arith, s.inside)) in
      record {
        edges = λ c x y z w. ground (arith, at c, at (c / 2), v.edges c, v.bridged m, s.most c);
        bridged = λ c y z w u. ground (arith, at c, at (m / 2), v.edges c);
      }

module _ (compare : ℕ → ℕ → Comparison) (rank : ℕ → ℕ) (ranked : IsRanked compare rank) where
  larger-ok :
      (a : List ℕ) (cnt child max : ℕ)
      → 1 ≤ child
      → 1 ≤ max
      → max ≤ cnt
      → cnt ≤ length a
      → larger compare a cnt child max
        ≡ ok (if leb child cnt && ltb (key rank a max) (key rank a child) then child else max)
  unfolding larger do_compare
  larger-ok a cnt child max h k l n = elim (Bool-cases (leb child cnt)) [
    | inl e ↦
        let inside : child ≤ cnt = ground arith in
        rw
          (
            e,
            get_elem?-eq-get_or a (child - 1) 0 (omega (arith, inside)),
            get_elem?-eq-get_or a (max - 1) 0 (omega arith),
            ranked.above (elem a child) (elem a max),
          )
          refl
    | inr e ↦ rw e refl
  ]

  abbrev pub picked : List ℕ → ℕ → ℕ → ℕ → ℕ
  picked a cnt child max =
      if leb child cnt && ltb (key rank a max) (key rank a child) then child else max

  picked-IsLargest :
      (a : List ℕ) (cnt i : ℕ)
      → 1 ≤ i
      → i ≤ cnt
      → IsLargest rank cnt a i (picked a cnt (2 * i + 1) (picked a cnt (2 * i) i))
  picked-IsLargest a cnt i h k =
      let m1 = picked a cnt (2 * i) i in
      elim (Bool-cases (leb (2 * i) cnt && ltb (key rank a i) (key rank a (2 * i)))) [
        | inl e ↦ rw e (
            second (2 * i) (ground arith) (inr (omega arith, omega arith, ground arith))
              (ground arith) (omega arith))
        | inr e ↦ rw e (second i k (inl refl) (omega arith) (ground arith))
      ]
    where
      either :
          (d : ℕ)
          → d / 2 ≡ i
          → (P : ℕ → Type 0) → (2 * i ≤ cnt → P (2 * i))
          → (2 * i + 1 ≤ cnt → P (2 * i + 1))
          → d ≤ cnt
          → P d
      either d z P even odd l = elim (Bool-cases (d % 2 == 0)) [
        | inl e ↦ let t : 2 * i ≡ d = ground arith in subst P t (even (omega (arith, t)))
        | inr e ↦ let t : 2 * i + 1 ≡ d = ground arith in subst P t (odd (omega (arith, t)))
      ]

      second :
          (m : ℕ)
          → m ≤ cnt
          → (m ≡ i) ⊎ ((m / 2 ≡ i) × (i < m) × (key rank a i < key rank a m))
          → key rank a i ≤ key rank a m
          → (2 * i ≤ cnt → key rank a (2 * i) ≤ key rank a m)
          → IsLargest rank cnt a i (picked a cnt (2 * i + 1) m)
      second m p c r q =
          elim (Bool-cases (leb (2 * i + 1) cnt && ltb (key rank a m) (key rank a (2 * i + 1)))) [
            | inl e ↦ rw e (record {
              inside = ground arith;
              child = inr (omega arith, omega arith, ground arith);
              most = λ d x y z.
                  either d z (λ u. key rank a u ≤ key rank a (2 * i + 1)) (λ l. ground (arith, q l))
                    (λ l. omega arith) y;
            })
            | inr e ↦ rw e (record {
              inside = p;
              child = c;
              most =
                  λ d x y z. either d z (λ u. key rank a u ≤ key rank a m) q (λ l. ground arith) y;
            })
          ]

  -- One round: `i` is the largest, or it changes places with the largest and the loop goes on there.
  round :
      (lo cnt : ℕ) (a : List ℕ) (i m : ℕ) (rest : List ℕ → Run (List ℕ))
      → 1 ≤ i
      → i ≤ cnt
      → cnt ≤ length a
      → IsFloating rank lo cnt a i
      → IsLargest rank cnt a i m
      → (i < m
          → (a' : List ℕ) → length a' ≡ length a
          → IsFloating rank lo cnt a' m
          → Floats rank lo cnt a' (rest a'))
      → Floats rank lo cnt a (if m == i then ok a else (do_swap a i m >>= rest))
  round lo cnt a i m rest h k n v s go_on = elim s.child [
    | inl e ↦ rw ((==_iff m i).1 e) (
      a,
      refl,
      (λ c x y z. ground (arith, v.edges c x y z, s.most c x y, e)),
      Keeps-refl rank cnt a,
    )
    | inr (p, q, r) ↦
        let w = swapped-IsFloating rank lo cnt a i m h n v s p q r in
        let kept = swapped-Keeps rank cnt a i m h k (omega (arith, q)) s.inside n in
        let (b, e, o, t) = go_on q (swapped a i m) kept.size w in
        rw
          (
            ne_test m i (λ z. omega (arith, q, z)),
            do_swap-ok a i m h (omega arith) (omega (arith, q)) (omega (arith, s.inside, n)),
          )
          (b, e, o, Keeps-trans rank cnt a (swapped a i m) b kept t)
  ]

  heapify_loop-ok :
      (fuel lo cnt : ℕ) (a : List ℕ) (i : ℕ)
      → cnt < fuel + i
      → 1 ≤ i
      → i ≤ cnt
      → cnt ≤ length a
      → IsFloating rank lo cnt a i
      → Floats rank lo cnt a (heapify_loop compare fuel a i cnt)
  unfolding heapify_loop
  heapify_loop-ok zero lo cnt a i f h k n v = absurd (omega arith)
  heapify_loop-ok (suc fuel) lo cnt a i f h k n v =
      let m1 = picked a cnt (2 * i) i in
      let m = picked a cnt (2 * i + 1) m1 in
      let s = picked-IsLargest a cnt i h k in
      let m1_in : (1 ≤ m1) × (m1 ≤ cnt) = ground arith in
      rw
        (
          larger-ok a cnt (2 * i) i (omega arith) h k n,
          larger-ok a cnt (2 * i + 1) m1 (omega arith) m1_in.0 m1_in.1 n,
        )
        (round lo cnt a i m (λ a'. heapify_loop compare fuel a' m cnt) h k n v s
          (λ q a' z w.
            heapify_loop-ok fuel lo cnt a' m (omega (arith, q)) (omega (arith, q)) s.inside
              (omega (arith, n, z)) w))

  -- An element that may be out of order with its children is put in its place.
  pub heapify-ok :
      (lo cnt : ℕ) (a : List ℕ) (i : ℕ)
      → 1 ≤ i
      → i ≤ cnt
      → cnt ≤ length a
      → IsFloating rank lo cnt a i
      → Floats rank lo cnt a (heapify compare a i cnt)
  unfolding heapify
  heapify-ok lo cnt a i h k n v = heapify_loop-ok (cnt + 1) lo cnt a i (omega arith) h k n v
