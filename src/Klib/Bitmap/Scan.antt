-- ===== src/Klib/Bitmap/Scan.antt =====
-- `bitmap_scan` and `bitmap_scan_and_flip` find the first group of equal bits, and flip it.
use project2_group.Base.{
  ℕ, zero, suc, ◌+◌, ◌-◌, ◌≤◌, ◌<◌, ◌≡◌, refl, ◌∙◌, sym, ◌≢◌, inl, inr, Bool, true, false, not, ok,
  leb, ◌==◌, ==_iff, arith, le→leb, Bool-cases, subst,
}
use project2_group.Klib.Bitmap.{Bitmap, bitmap_error, scan_loop, bitmap_scan, bitmap_scan_and_flip}
use project2_group.Klib.Bitmap.View.{bit, IsValid}
use project2_group.Klib.Bitmap.Ranges.{
  IsSetRange, Uniform, any_in, any_in-true, any_in-false, bitmap_contains-ok,
  bitmap_set_multiple-ok,
}

-- No group of `cnt` bits `x` starts at an index from `lo` on and below `hi`.
abbrev pub NoGroup : Bitmap → ℕ → ℕ → ℕ → Bool → Type 0
NoGroup b lo hi cnt x = (i : ℕ) → lo ≤ i → i < hi → ¬ Uniform (bit b) i cnt x

-- What a scan from `start` may return.
pub data IsScan (b : Bitmap) (start cnt : ℕ) (x : Bool) (r : ℕ) : Type 0 where
  found :
      start ≤ r
      → r + cnt ≤ b.bit_cnt
      → Uniform (bit b) r cnt x
      → NoGroup b start r cnt x
      → IsScan b start cnt x r
  missing :
      r ≡ bitmap_error
      → ((i : ℕ) → start ≤ i → i + cnt ≤ b.bit_cnt → ¬ Uniform (bit b) i cnt x)
      → IsScan b start cnt x r

not-not : (x : Bool) → not (not x) ≡ x
not-not true = refl
not-not false = refl

not-ne : (x : Bool) → not x ≢ x
not-ne true h = cc
not-ne false h = cc

not-Uniform : (p : ℕ → Bool) (i n : ℕ) (x : Bool) → any_in p i n (not x) ≡ true → ¬ Uniform p i n x
not-Uniform p i n x h u =
    let (j, lo, hi, e) = any_in-true p n i (not x) h in not-ne x (sym e ∙ u j lo hi)

NoGroup-next :
    (b : Bitmap) (lo hi cnt : ℕ) (x : Bool)
    → NoGroup b lo hi cnt x
    → ¬ Uniform (bit b) hi cnt x
    → NoGroup b lo (hi + 1) cnt x
NoGroup-next b lo hi cnt x before here i h k u = elim (Bool-cases (i == hi)) [
  | inl e ↦ here (subst (λ t. Uniform (bit b) t cnt x) ((==_iff i hi).0 e) u)
  | inr e ↦ before i h (ground arith) u
]

scan_loop-IsScan :
    (n : ℕ) (b : Bitmap) (start i cnt : ℕ) (x : Bool)
    → IsValid b
    → start ≤ i
    → b.bit_cnt + 1 ≤ i + n + cnt
    → (n ≢ 0 → i + n + cnt ≡ b.bit_cnt + 1)
    → NoGroup b start i cnt x
    → (r : ℕ) × (scan_loop n b i cnt x ≡ ok r) × IsScan b start cnt x r
unfolding scan_loop
scan_loop-IsScan zero b start i cnt x v lo hi e none_yet =
    (bitmap_error, refl, missing refl (λ j h k. none_yet j h (omega arith)))
scan_loop-IsScan (suc n) b start i cnt x v lo hi e none_yet =
    let e' : i + suc n + cnt ≡ b.bit_cnt + 1 = e (omega arith) in
    elim (Bool-cases (any_in (bit b) i cnt (not x))) [
      | inl hit ↦
          let (r, q, s) =
            scan_loop-IsScan n b start (i + 1) cnt x v (omega arith) (omega arith)
              (λ _. omega arith)
              (NoGroup-next b start i cnt x none_yet (not-Uniform (bit b) i cnt x hit)) in
          (r, rw (bitmap_contains-ok b i cnt (not x) v (omega arith), hit) q, s)
      | inr miss ↦ (
        i,
        rw (bitmap_contains-ok b i cnt (not x) v (omega arith), miss),
        found lo (omega arith)
            (subst (Uniform (bit b) i cnt) (not-not x) (any_in-false (bit b) cnt i (not x) miss))
            none_yet,
      )
    ]

-- On a valid bitmap and from a `start` within it `bitmap_scan` returns the first index from `start` on where `cnt` bits
-- in a row are `x`, or BITMAP_ERROR if there is none.
pub bitmap_scan_lem :
    (b : Bitmap) (start cnt : ℕ) (x : Bool)
    → IsValid b
    → start ≤ b.bit_cnt
    → (r : ℕ) × (bitmap_scan b start cnt x ≡ ok r) × IsScan b start cnt x r
unfolding bitmap_scan
bitmap_scan_lem b start cnt x v h = elim (Bool-cases (leb cnt b.bit_cnt)) [
  | inl fits ↦
      let (r, e, s) =
        scan_loop-IsScan (b.bit_cnt - cnt + 1 - start) b start start cnt x v (omega arith)
          (omega arith) (λ k. ground arith) (λ i lo hi. absurd (omega arith)) in
      (r, rw (le→leb _ _ h, fits) e, s)
  | inr over ↦
      (bitmap_error, rw (le→leb _ _ h, over), missing refl (λ i lo hi. absurd (ground arith)))
]

-- `bitmap_scan_and_flip` on a valid bitmap: if the scan finds a group, exactly its bits are
-- flipped, to `not x`; otherwise BITMAP_ERROR is returned and the bitmap is unchanged.
pub data IsFlip (b : Bitmap) (start cnt : ℕ) (x : Bool) (r : ℕ) (c : Bitmap) : Type 0 where
  flipped :
      r ≢ bitmap_error
      → IsScan b start cnt x r
      → r + cnt ≤ b.bit_cnt
      → Uniform (bit b) r cnt x
      → IsSetRange b c r (r + cnt) (not x)
      → IsFlip b start cnt x r c
  no_group : r ≡ bitmap_error → IsScan b start cnt x r → c ≡ b → IsFlip b start cnt x r c

IsFlip-of_IsScan :
    (b : Bitmap) (start cnt : ℕ) (x : Bool) (r : ℕ)
    → IsValid b
    → bitmap_scan b start cnt x ≡ ok r
    → IsScan b start cnt x r
    → (c : Bitmap) × (bitmap_scan_and_flip b start cnt x ≡ ok (r, c)) × IsFlip b start cnt x r c
unfolding bitmap_scan_and_flip
IsFlip-of_IsScan b start cnt x r v e (found lo hi u before) =
    let (c, q, s) = bitmap_set_multiple-ok b r cnt (not x) v hi in
    let small : (r == bitmap_error) ≡ false = ground (arith, v.small) in
    (c, rw (e, small, q), flipped (ground (arith, v.small)) (found lo hi u before) hi u s)
IsFlip-of_IsScan b start cnt x r v e (missing err all) =
    (b, rw (e, err), no_group err (missing err all) refl)

-- On a valid bitmap and from a `start` within it, `bitmap_scan_and_flip` succeeds. Either it returns the first
-- group of `cnt` bits that are `x`, and they and no others are now the opposite, or there is no
-- such group, it returns BITMAP_ERROR, and the bitmap is as before.
pub bitmap_scan_and_flip_lem :
    (b : Bitmap) (start cnt : ℕ) (x : Bool)
    → IsValid b
    → start ≤ b.bit_cnt
    → (r : ℕ) × (c : Bitmap) × (bitmap_scan_and_flip b start cnt x ≡ ok (r, c))
      × IsFlip b start cnt x r c
bitmap_scan_and_flip_lem b start cnt x v h =
    let (r, e, s) = bitmap_scan_lem b start cnt x v h in
    let (c, q, f) = IsFlip-of_IsScan b start cnt x r v e s in (r, c, q, f)
