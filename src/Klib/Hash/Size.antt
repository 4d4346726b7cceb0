-- ===== src/Klib/Hash/Size.antt =====
-- The number of buckets: the loop of `rehash` ends, at the largest power of 2.
use Prim.Native.Nat.{min}
use native.Mathlib.Nat.{pow-suc}
use project2_group.Base.{
  ℕ, zero, suc, ◌+◌, ◌-◌, ◌*◌, ◌/◌, ◌%◌, ◌^◌, bit_and, ◌≤◌, ◌<◌, ◌≡◌, ◌≢◌, refl, ap, ◌∙◌, inl, inr,
  false, some, ltb, ◌==◌, arith, Bool-cases, and_halves, ==_iff, bool_clash, ltb→lt, and-zero_below,
  ◌⊎◌,
}
use project2_group.Klib.Hash.{turn_off_least_1bit, is_power_of_2, round_down, new_bucket_cnt}

-- `&` gives at most its second operand.
pub and_le_right : (n a b : ℕ) → b ≤ n → bit_and a b ≤ b
and_le_right zero a b h =
    let e : b ≡ 0 = omega arith in rw e (omega (arith, and-zero_below a a (omega arith)))
and_le_right (suc n) a b h =
    omega (arith, and_halves a b, and_le_right n (a / 2) (b / 2) (omega arith))

and_self : (n a : ℕ) → a ≤ n → bit_and a a ≡ a
and_self zero a h = let e : a ≡ 0 = omega arith in rw e refl
and_self (suc n) a h = omega (arith, and_halves a a, and_self n (a / 2) (omega arith))

off_odd : (y : ℕ) → turn_off_least_1bit (2 * y + 1) ≡ 2 * y
unfolding turn_off_least_1bit
off_odd y =
    let half : (2 * y + 1) / 2 ≡ y = omega arith in
    let half' : (2 * y + 1 - 1) / 2 ≡ y = omega arith in
    let e : bit_and (2 * y + 1) (2 * y + 1 - 1)
        ≡ bit_and y y * 2 + min ((2 * y + 1) % 2) ((2 * y + 1 - 1) % 2) =
      rw (half, half') at (and_halves (2 * y + 1) (2 * y + 1 - 1)) in
    omega (arith, e, and_self y y (omega arith))

off_even : (y : ℕ) → 0 < y → turn_off_least_1bit (2 * y) ≡ 2 * turn_off_least_1bit y
unfolding turn_off_least_1bit
off_even y h =
    let half : (2 * y) / 2 ≡ y = omega arith in
    let half' : (2 * y - 1) / 2 ≡ y - 1 = omega arith in
    let e : bit_and (2 * y) (2 * y - 1)
        ≡ bit_and y (y - 1) * 2 + min ((2 * y) % 2) ((2 * y - 1) % 2) =
      rw (half, half') at (and_halves (2 * y) (2 * y - 1)) in
    omega (arith, e)

pow_pos : (k : ℕ) → 0 < 2 ^ k
pow_pos zero = omega arith
pow_pos (suc k) = omega (arith, pow-suc 2 k, pow_pos k)

-- Turning off a bit makes the number smaller, and keeps it above a power of 2 unless nothing is left.
off_lt : (x : ℕ) → 0 < x → turn_off_least_1bit x < x
unfolding turn_off_least_1bit
off_lt x h = omega (arith, and_le_right x x (x - 1) (omega arith))

split : (x : ℕ) → 0 < x → ((y : ℕ) × (x ≡ 2 * y + 1)) ⊎ ((y : ℕ) × (0 < y) × (x ≡ 2 * y))
split x h = elim (Bool-cases (x % 2 == 1)) [
  | inl e ↦ inl (x / 2, ground arith)
  | inr e ↦ inr (x / 2, ground arith, ground arith)
]

off_above : (k x : ℕ) → 2 ^ k ≤ x → turn_off_least_1bit x ≢ 0 → 2 ^ k ≤ turn_off_least_1bit x
off_above zero x h n = omega (arith, n)
off_above (suc k) x h n = elim (split x (omega (arith, pow-suc 2 k, pow_pos k))) [
  | inl (y, e) ↦ omega (arith, ap turn_off_least_1bit e, off_odd y, pow-suc 2 k)
  | inr (y, pos, e) ↦
      let same = ap turn_off_least_1bit e ∙ off_even y pos in
      omega (
        arith,
        same,
        off_above k y (omega (arith, pow-suc 2 k)) (λ z. n (omega (arith, same, z))),
        pow-suc 2 k,
      )
]

-- Only a power of 2 has no bit left.
off_zero : (k x : ℕ) → 2 ^ k ≤ x → x < 2 ^ suc k → turn_off_least_1bit x ≡ 0 → x ≡ 2 ^ k
off_zero zero x h l e = omega (arith, pow-suc 2 0)
off_zero (suc k) x h l e = elim (split x (omega (arith, pow-suc 2 k, l, h))) [
  | inl (y, s) ↦
      absurd (omega (arith, e, s, ap turn_off_least_1bit s, off_odd y, pow-suc 2 k, pow_pos k))
  | inr (y, pos, s) ↦
      let same = ap turn_off_least_1bit s ∙ off_even y pos in
      omega (
        arith,
        s,
        pow-suc 2 k,
        off_zero k y (omega (arith, pow-suc 2 k)) (omega (arith, pow-suc 2 k, pow-suc 2 (suc k)))
            (omega (arith, same)),
      )
]

-- The loop that turns off bits until one is left ends, with fuel for as many rounds as the number, and gives the
-- largest power of 2 that is not above the number.
pub round_down_lem :
    (k fuel n : ℕ) → 2 ^ k ≤ n → n < 2 ^ suc k → n ≤ fuel → round_down fuel n ≡ some (2 ^ k)
unfolding round_down is_power_of_2
round_down_lem k zero n h l f = absurd (omega (arith, pow_pos k))
round_down_lem k (suc fuel) n h l f =
    let pos : 0 < n = omega (arith, pow_pos k) in
    let nonzero : (n == 0) ≡ false = ground arith in
    elim (Bool-cases (turn_off_least_1bit n == 0)) [
      | inl e ↦ rw (nonzero, e) (ap some (off_zero k n h l ((==_iff _ 0).0 e)))
      | inr e ↦
          let left : turn_off_least_1bit n ≢ 0 = λ z. bool_clash e ((==_iff _ 0).1 z) in
          rw (nonzero, e)
            (round_down_lem k fuel (turn_off_least_1bit n) (off_above k n h left)
              (omega (arith, off_lt n pos)) (omega (arith, off_lt n pos)))
    ]

-- Every positive number lies between two powers of 2.
between : (n : ℕ) → 0 < n → (k : ℕ) × (2 ^ k ≤ n) × (n < 2 ^ suc k)
between zero h = absurd (omega arith)
between (suc zero) h = (0, omega arith, omega (arith, pow-suc 2 0))
between (suc (suc n)) h =
    let (k, lo, hi) = between (suc n) (omega arith) in
    elim (Bool-cases (ltb (suc (suc n)) (2 ^ suc k))) [
      | inl e ↦ (k, omega arith, ltb→lt _ _ e)
      | inr e ↦ (suc k, ground (arith, hi), omega (arith, pow-suc 2 (suc k), hi, pow_pos (suc k)))
    ]

-- For every number of elements the computation of the bucket count ends, with a power of 2 that is at least 4. It
-- is at most half the number of elements unless that is less than 4, and twice it is above that half.
pub new_bucket_cnt_lem :
    (elem_cnt : ℕ)
    → (k : ℕ) × (new_bucket_cnt elem_cnt ≡ some (2 ^ k))
      × (4 ≤ 2 ^ k)
      × ((elem_cnt < 8) ⊎ (2 ^ k ≤ elem_cnt / 2))
      × (elem_cnt / 2 < 2 * 2 ^ k)
unfolding new_bucket_cnt
new_bucket_cnt_lem elem_cnt = elim (Bool-cases (ltb (elem_cnt / 2) 4)) [
  | inl e ↦
      let small = ltb→lt _ _ e in
      (
        2,
        rw e (round_down_lem 2 4 4 (omega arith) (omega arith) (omega arith)),
        omega arith,
        inl (omega (arith, small)),
        omega (arith, small),
      )
  | inr e ↦
      let large : 4 ≤ elem_cnt / 2 = ground arith in
      let (k, lo, hi) = between (elem_cnt / 2) (omega (arith, large)) in
      (
        k,
        rw e (round_down_lem k _ _ lo hi (omega arith)),
        four k (omega (arith, large, hi)),
        inr lo,
        omega (arith, hi, pow-suc 2 k),
      )
]
  where
    four : (k : ℕ) → 4 < 2 ^ suc k → 4 ≤ 2 ^ k
    four zero h = absurd (omega (arith, pow-suc 2 0))
    four (suc zero) h = absurd (omega (arith, pow-suc 2 1, pow-suc 2 0))
    four (suc (suc k)) h = omega (arith, pow-suc 2 (suc k), pow-suc 2 k, pow_pos k)
