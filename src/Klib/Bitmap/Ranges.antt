-- ===== src/Klib/Bitmap/Ranges.antt =====
-- The operations on a range of bits: `bitmap_set_multiple`, `bitmap_count`, `bitmap_contains` and
-- what is built on them.
use project2_group.Base.{
  ℕ, zero, suc, ◌+◌, ◌^◌, ◌≤◌, ◌<◌, ◌≡◌, ◌≢◌, refl, ap, ◌∙◌, inl, inr, Bool, true, false, not, ◌&&◌,
  ◌||◌, List, ok, ltb, leb, ◌==◌, ==_iff, bool_eq, if◌then◌else◌, length, arith, le→leb, Bool-cases,
  eq_of_bool_eq, ne_of_bool_eq, subst, some,
}
use project2_group.Klib.Bitmap.{
  Bitmap, add_size, assert_range, set_loop, bitmap_set_multiple, bitmap_set_all, count_loop,
  bitmap_count, contains_loop, bitmap_contains, bitmap_all, bitmap_any, bitmap_none, bitmap_create,
  elem_cnt,
}
use project2_group.Klib.Bitmap.View.{
  bit, bit_cnt-put, IsValid, put, put-bit, put-IsValid, bitmap_set-ok, bitmap_test-ok,
}

-- `c` is `b` with the bits from `lo` up to `hi` set to `x`.
pub record IsSetRange (b c : Bitmap) (lo hi : ℕ) (x : Bool) : Type 0 where
  pub valid : IsValid c
  pub same_size : c.bit_cnt ≡ b.bit_cnt
  pub bits : (j : ℕ) → bit c j ≡ (if leb lo j && ltb j hi then x else bit b j)

-- The ASSERTs pass on a range within the bitmap.
pub assert_range-ok :
    (b : Bitmap) (start cnt : ℕ)
    → IsValid b
    → start + cnt ≤ b.bit_cnt
    → assert_range b start cnt ≡ ok tt
assert_range-ok b start cnt v h = rw (
  le→leb start b.bit_cnt (omega arith),
  le→leb (add_size start cnt) b.bit_cnt (omega (arith, v.small)),
)

add_size-small : (a b n : ℕ) → a + b ≤ n → n + 31 < 2 ^ 32 → add_size a b ≡ a + b
add_size-small a b n h k = omega arith

set_loop-ok :
    (n : ℕ) (b : Bitmap) (start i : ℕ) (x : Bool)
    → IsValid b
    → start + i + n ≤ b.bit_cnt
    → (c : Bitmap) × (set_loop n b start i x ≡ ok c) × IsSetRange b c (start + i) (start + i + n) x
unfolding set_loop
set_loop-ok zero b start i x v h =
    (b, refl, record { valid = v; same_size = refl; bits = λ j. ground arith })
set_loop-ok (suc n) b start i x v h =
    let here : start + i < b.bit_cnt = omega arith in
    let v' = put-IsValid v (start + i) x in
    let (c, e, r) =
      set_loop-ok n (put b (start + i) x) start (i + 1) x v'
        (omega (arith, bit_cnt-put b (start + i) x)) in
    (
      c,
      rw
          (
            add_size-small start i b.bit_cnt (omega arith) v.small,
            bitmap_set-ok v (start + i) x here,
          )
          e,
      record {
        valid = r.valid;
        same_size = r.same_size ∙ bit_cnt-put b (start + i) x;
        bits = λ j. ground (arith, r.bits j, put-bit v (start + i) j x here);
      },
    )

-- On a valid bitmap and a range within it, `bitmap_set_multiple` succeeds and sets the bits of the
-- range, and no others, to the value; the bitmap stays valid and keeps its size.
pub bitmap_set_multiple-ok :
    (b : Bitmap) (start cnt : ℕ) (x : Bool)
    → IsValid b
    → start + cnt ≤ b.bit_cnt
    → (c : Bitmap) × (bitmap_set_multiple b start cnt x ≡ ok c)
      × IsSetRange b c start (start + cnt) x
unfolding bitmap_set_multiple
bitmap_set_multiple-ok b start cnt x v h =
    let (c, e, r) = set_loop-ok cnt b start 0 x v (omega arith) in
    (
      c,
      rw (assert_range-ok b start cnt v h) e,
      record { valid = r.valid; same_size = r.same_size; bits = λ j. ground (arith, r.bits j) },
    )

-- Whether some bit of the range is `x`.
abbrev pub any_in : (ℕ → Bool) → ℕ → ℕ → Bool → Bool
any_in p i zero x = false
any_in p i (suc n) x = bool_eq (p i) x || any_in p (i + 1) n x

-- How many are.
abbrev pub count_in : (ℕ → Bool) → ℕ → ℕ → Bool → ℕ
count_in p i zero x = 0
count_in p i (suc n) x = (if bool_eq (p i) x then 1 else 0) + count_in p (i + 1) n x

contains_loop-ok :
    (n : ℕ) (b : Bitmap) (start i k : ℕ) (x : Bool)
    → IsValid b
    → start + i ≡ k
    → k + n ≤ b.bit_cnt
    → contains_loop n b start i x ≡ ok (any_in (bit b) k n x)
unfolding contains_loop
contains_loop-ok zero b start i k x v e h = refl
contains_loop-ok (suc n) b start i k x v e h =
    rw (add_size-small start i b.bit_cnt (omega arith) v.small, e, bitmap_test-ok v k (omega arith))
      (ground (arith, contains_loop-ok n b start (i + 1) (k + 1) x v (omega arith) (omega arith)))

pub bitmap_contains-ok :
    (b : Bitmap) (start cnt : ℕ) (x : Bool)
    → IsValid b
    → start + cnt ≤ b.bit_cnt
    → bitmap_contains b start cnt x ≡ ok (any_in (bit b) start cnt x)
unfolding bitmap_contains
bitmap_contains-ok b start cnt x v h =
    rw (assert_range-ok b start cnt v h) (contains_loop-ok cnt b start 0 start x v (omega arith) h)

-- What `any_in` decides.
abbrev pub Uniform : (ℕ → Bool) → ℕ → ℕ → Bool → Type 0
Uniform p lo n x = (j : ℕ) → lo ≤ j → j < lo + n → p j ≡ x

pub any_in-false :
    (p : ℕ → Bool) (n i : ℕ) (x : Bool) → any_in p i n x ≡ false → Uniform p i n (not x)
any_in-false p zero i x h j lo hi = absurd (omega arith)
any_in-false p (suc n) i x h j lo hi = elim (Bool-cases (bool_eq (p i) x)) [
  | inl e ↦ cc (h, ap (λ t. t || any_in p (i + 1) n x) e)
  | inr e ↦ elim (Bool-cases (i == j)) [
    | inl q ↦ subst (λ k. p k ≡ not x) ((==_iff i j).0 q) (ne_of_bool_eq (p i) x e)
    | inr q ↦ any_in-false p n (i + 1) x (rw e at h) j (ground arith) (omega arith)
  ]
]

pub any_in-true :
    (p : ℕ → Bool) (n i : ℕ) (x : Bool)
    → any_in p i n x ≡ true
    → (j : ℕ) × (i ≤ j) × (j < i + n) × (p j ≡ x)
any_in-true p zero i x h = cc
any_in-true p (suc n) i x h = elim (Bool-cases (bool_eq (p i) x)) [
  | inl e ↦ (i, omega arith, omega arith, eq_of_bool_eq (p i) x e)
  | inr e ↦
      let (j, lo, hi, q) = any_in-true p n (i + 1) x (rw e at h) in (j, omega arith, omega arith, q)
]

count_loop-ok :
    (n : ℕ) (b : Bitmap) (start i k acc : ℕ) (x : Bool)
    → IsValid b
    → start + i ≡ k
    → k + n ≤ b.bit_cnt
    → count_loop n b start i x acc ≡ ok (acc + count_in (bit b) k n x)
unfolding count_loop
count_loop-ok zero b start i k acc x v e h = ap ok (omega arith)
count_loop-ok (suc n) b start i k acc x v e h =
    rw (add_size-small start i b.bit_cnt (omega arith) v.small, e, bitmap_test-ok v k (omega arith))
      (count_loop-ok n b start (i + 1) (k + 1) _ x v (omega arith) (omega arith)
        ∙ ap ok (ground arith))

pub bitmap_count-ok :
    (b : Bitmap) (start cnt : ℕ) (x : Bool)
    → IsValid b
    → start + cnt ≤ b.bit_cnt
    → bitmap_count b start cnt x ≡ ok (count_in (bit b) start cnt x)
unfolding bitmap_count
bitmap_count-ok b start cnt x v h =
    rw (assert_range-ok b start cnt v h)
      (count_loop-ok cnt b start 0 start 0 x v (omega arith) h ∙ ap ok (omega arith))

-- The bits of a range are either true or false.
count_in-add : (p : ℕ → Bool) (n i : ℕ) (x : Bool) → count_in p i n x + count_in p i n (not x) ≡ n
count_in-add p zero i x = omega arith
count_in-add p (suc n) i x = ground (arith, count_in-add p n (i + 1) x, Bool-cases (p i))

any_in-count : (p : ℕ → Bool) (n i : ℕ) (x : Bool) → any_in p i n x ≡ ltb 0 (count_in p i n x)
any_in-count p zero i x = refl
any_in-count p (suc n) i x = ground (arith, any_in-count p n (i + 1) x)

-- On a valid bitmap and a range within it, `bitmap_count` counts each bit once, whether true or
-- false, and `bitmap_contains` answers whether `bitmap_count` is positive.
pub bitmap_count_lem :
    (b : Bitmap) (start cnt : ℕ) (x : Bool)
    → IsValid b
    → start + cnt ≤ b.bit_cnt
    → (n m : ℕ) × (bitmap_count b start cnt x ≡ ok n)
      × (bitmap_count b start cnt (not x) ≡ ok m)
      × (n + m ≡ cnt)
      × (bitmap_contains b start cnt x ≡ ok (ltb 0 n))
bitmap_count_lem b start cnt x v h = (
  count_in (bit b) start cnt x,
  count_in (bit b) start cnt (not x),
  bitmap_count-ok b start cnt x v h,
  bitmap_count-ok b start cnt (not x) v h,
  count_in-add (bit b) cnt start x,
  bitmap_contains-ok b start cnt x v h ∙ ap ok (any_in-count (bit b) cnt start x),
)

-- On a valid bitmap and a range within it, `bitmap_all` succeeds; if it returns true every bit of the
-- range is set, and if it returns false some bit of the range is clear.
pub bitmap_all_lem :
    (b : Bitmap) (start cnt : ℕ)
    → IsValid b
    → start + cnt ≤ b.bit_cnt
    → (r : Bool) × (bitmap_all b start cnt ≡ ok r)
      × (r ≡ true → Uniform (bit b) start cnt true)
      × (r ≡ false → (j : ℕ) × (start ≤ j) × (j < start + cnt) × (bit b j ≡ false))
unfolding bitmap_all
bitmap_all_lem b start cnt v h = (
  not (any_in (bit b) start cnt false),
  rw (bitmap_contains-ok b start cnt false v h),
  λ e. any_in-false (bit b) cnt start false (ground arith),
  λ e. any_in-true (bit b) cnt start false (ground arith),
)

-- On a valid bitmap and a range within it, `bitmap_none` succeeds; if it returns true every bit of the
-- range is clear, and if it returns false some bit of it is set. `bitmap_any` returns the opposite.
pub bitmap_none_lem :
    (b : Bitmap) (start cnt : ℕ)
    → IsValid b
    → start + cnt ≤ b.bit_cnt
    → (r : Bool) × (bitmap_none b start cnt ≡ ok r)
      × (bitmap_any b start cnt ≡ ok (not r))
      × (r ≡ true → Uniform (bit b) start cnt false)
      × (r ≡ false → (j : ℕ) × (start ≤ j) × (j < start + cnt) × (bit b j ≡ true))
unfolding bitmap_none bitmap_any
bitmap_none_lem b start cnt v h = (
  not (any_in (bit b) start cnt true),
  rw (bitmap_contains-ok b start cnt true v h),
  rw (bitmap_contains-ok b start cnt true v h) (ground arith),
  λ e. any_in-false (bit b) cnt start true (ground arith),
  λ e. any_in-true (bit b) cnt start true (ground arith),
)

-- `bitmap_create`, given storage for the elements with anything in it and a size that `elem_cnt` does
-- not overflow on, makes a valid bitmap of the size asked for in which every bit is false.
pub bitmap_create_lem :
    (elems : List ℕ) (n : ℕ)
    → length elems ≡ elem_cnt n
    → n + 31 < 2 ^ 32
    → (b : Bitmap) × (bitmap_create true (some elems) n ≡ ok (some b))
      × IsValid b
      × (b.bit_cnt ≡ n)
      × Uniform (bit b) 0 n false
unfolding bitmap_create bitmap_set_all
bitmap_create_lem elems n e small =
    let b : Bitmap = record { bit_cnt = n; bits = elems } in
    let (c, q, s) =
      bitmap_set_multiple-ok b 0 n false (record { elems = e; small = small }) (omega arith) in
    (c, rw q, s.valid, s.same_size, λ j lo hi. ground (arith, s.bits j))

true-ne-false : (b : Bool) → b ≡ true → b ≢ false
true-ne-false b e h = cc

-- `bitmap_all` is true of a range that is set.
pub bitmap_all-ok :
    (b : Bitmap) (start cnt : ℕ)
    → IsValid b
    → start + cnt ≤ b.bit_cnt
    → Uniform (bit b) start cnt true
    → bitmap_all b start cnt ≡ ok true
bitmap_all-ok b start cnt v h u =
    let (r, q, yes', no') = bitmap_all_lem b start cnt v h in
    elim (Bool-cases r) [
      | inl e ↦ q ∙ ap ok e
      | inr e ↦ let (j, lo, hi, clear) = no' e in absurd (true-ne-false (bit b j) (u j lo hi) clear)
    ]
