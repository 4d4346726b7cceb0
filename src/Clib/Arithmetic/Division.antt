-- ===== src/Clib/Arithmetic/Division.antt =====
-- `udiv64` gives the quotient, and `umod64` the low 32 bits of the remainder.
use native.Mathlib.Nat.{
  mul_assoc, mul_comm, mod-eq_of_lt, mul-lt-mul_of_pos_right, mul-le-mul_right, div-div-eq-div-mul,
  le-div_iff_mul-le, div-lt_iff_lt-mul, div-add-mod, mod-lt, mul-add-div, le_of_mul-le-mul_right,
  div-le_self, div-mul-le_self, div-eq_of_lt, pow-succ', mul-add, suc-mul, mul-pos, mul-le-mul_left,
  lt_of_mul-lt-mul_right,
}
use project2_group.Base.{
  ℕ, zero, suc, ◌+◌, ◌-◌, ◌*◌, ◌/◌, ◌%◌, ◌^◌, ◌≤◌, ◌<◌, ◌≡◌, refl, sym, ap, ◌∙◌, subst, inl, inr,
  arith, leb, ltb, ◌==◌, Bool-cases, Run, ok, if◌then◌else◌, ne_test,
}
use project2_group.Clib.Arithmetic.{sub64, nlz, short_divisor, long_divisor, udiv64, umod64}
use project2_group.Clib.Arithmetic.LeadingZeros.{pow_pos, pow_add, nlz_lem}

-- The instruction gives the quotient where that fits in 32 bits.
abbrev pub IsDivl : (ℕ → ℕ → Run ℕ) → Type 0
IsDivl divl = (n d : ℕ) → d < 2 ^ 32 → n < d * 2 ^ 32 → divl n d ≡ ok (n / d)

div_unique : (n d k : ℕ) → 0 < d → k * d ≤ n → n < suc k * d → n / d ≡ k
div_unique n d k h lo hi =
    let a : k ≤ n / d = (le-div_iff_mul-le h).1 lo in
    let b : n / d < suc k = (div-lt_iff_lt-mul h).1 hi in omega (arith, a, b)

div_mono : (n c d : ℕ) → 0 < c → c ≤ d → n / d ≤ n / c
div_mono n c d h le =
    let a : n / d * c ≤ n / d * d = mul-le-mul_left (n / d) le in
    (le-div_iff_mul-le h).1 (omega (arith, a, div-mul-le_self n d))

-- The divisor `d` and its approximation `v * P` from below, where `v` has 32 bits, for the shift by `s`.
record IsNear (n d v w P q : ℕ) : Type 0 where
  scale : w * P ≡ 2 ^ 32
  high : 2 ^ 31 ≤ v
  below : v * 2 ^ 32 ≤ d * w
  above : d * w < suc v * 2 ^ 32
  quotient : q ≡ n / (v * P)

near-le : {n d v w P q : ℕ} → 0 < w → IsNear n d v w P q → v * P ≤ d
near-le {n} {d} {v} {w} {P} {q} h a =
    le_of_mul-le-mul_right {k = w}
      (omega (arith, a.below, ap (λ (t : ℕ). v * t) a.scale, mul_assoc v P w, mul_comm P w)) h

near-lt : {n d v w P q : ℕ} → IsNear n d v w P q → d < suc v * P
near-lt {n} {d} {v} {w} {P} {q} a =
    lt_of_mul-lt-mul_right w (
      omega
        (arith, a.above, ap (λ (t : ℕ). suc v * t) a.scale, mul_assoc (suc v) P w, mul_comm P w))

module _ (divl : ℕ → ℕ → Run ℕ) (is_divl : IsDivl divl) where
  short_divisor-ok :
      (n d : ℕ) → 0 < d → n < 2 ^ 64 → d < 2 ^ 32 → short_divisor divl n d ≡ ok (n / d)
  unfolding short_divisor
  short_divisor-ok n d h l r =
      let n₁ = n / 2 ^ 32 in
      let n₀ = n % 2 ^ 32 in
      let d₀ : d % 2 ^ 32 ≡ d = omega arith in
      let m : n₁ % d < d = mod-lt n₁ h in
      let small : (2 ^ 32 * (n₁ % d) + n₀) % 2 ^ 64 ≡ 2 ^ 32 * (n₁ % d) + n₀ = omega arith in
      let fits : 2 ^ 32 * (n₁ % d) + n₀ < d * 2 ^ 32 = omega arith in
      let whole : n ≡ d * (2 ^ 32 * (n₁ / d)) + (2 ^ 32 * (n₁ % d) + n₀) =
        omega (arith, div-add-mod n₁ d) in
      let sum : n / d ≡ 2 ^ 32 * (n₁ / d) + (2 ^ 32 * (n₁ % d) + n₀) / d =
        ap (λ t. t / d) whole ∙ mul-add-div h _ _ in
      rw (d₀, ne_test d 0 (λ z. omega arith), small, is_divl _ _ r fits)
        (ap ok (omega (arith, sum, div-le_self n d)))

-- The approximate quotient is the quotient or one more.
near-mul :
    {n d v w P q : ℕ} (h : ℕ)
    → 0 < w
    → 0 < P
    → n < 2 ^ 64
    → 2 ^ 32 ≤ d
    → P ≡ 2 * h
    → IsNear n d v w P q
    → q * d ≤ n + d
near-mul {n} {d} {v} {w} {P} {q} h pos pos_P l big even a =
    let le = near-le pos a in
    let lt = near-lt a in
    let e = d - v * P in
    let D : q * (v * P) ≤ n =
      subst (λ t. t * (v * P) ≤ n) (sym a.quotient) (div-mul-le_self n (v * P)) in
    let dist : q * d ≡ q * (v * P) + q * e =
      ap (λ (t : ℕ). q * t) (omega (arith, le)) ∙ mul-add q (v * P) e in
    let qP : q * P * 2 ^ 31 ≤ q * P * v = mul-le-mul_left (q * P) a.high in
    let qv : q * P * v ≡ q * (v * P) = mul_assoc q P v ∙ ap (λ (t : ℕ). q * t) (mul_comm P v) in
    let short : q * P < 2 ^ 33 = omega (arith, D, qP, qv) in
    let excess : q * e ≤ d = elim (Bool-cases (leb 4 P)) [
      | inl z ↦
          let four : 4 ≤ P = ground arith in
          let vP : 2 ^ 31 * P ≤ v * P = mul-le-mul_right P a.high in
          let qe : q * e ≤ q * P = mul-le-mul_left q (omega (arith, lt)) in
          omega (arith, qe, short, vP, le, four)
      | inr z ↦
          let less : P < 4 = ground arith in
          let two : P ≡ 2 = omega (arith, less, even, pos_P) in
          let qe : q * e ≤ q * 1 = mul-le-mul_left q (omega (arith, lt, two)) in
          omega (arith, qe, subst (λ t. q * t < 2 ^ 33) two short, big)
    ] in
    omega (arith, dist, D, excess)

-- The shift of a long divisor, which brings its highest bit to bit 63.
shifted :
    (d s : ℕ)
    → s ≡ nlz (d / 2 ^ 32)
    → 2 ^ 32 ≤ d
    → d < 2 ^ 64
    → (2 ^ s * 2 ^ (32 - s) ≡ 2 ^ 32)
      × (2 ^ (32 - s) ≡ 2 * 2 ^ (31 - s))
      × (2 ^ 63 ≤ d * 2 ^ s)
      × (d * 2 ^ s < 2 ^ 64)
shifted d s e big r =
    let d₁ = d / 2 ^ 32 in
    let w = 2 ^ s in
    let P = 2 ^ (32 - s) in
    let (s_lt, lo, hi) =
      subst (λ t. (t < 32) × (2 ^ 31 ≤ d₁ * 2 ^ t) × (d₁ * 2 ^ t < 2 ^ 32)) (sym e)
        (nlz_lem d₁ (omega arith) (omega arith)) in
    let all : s + (32 - s) ≡ 32 = omega (arith, s_lt) in
    let less : 32 - s ≡ suc (31 - s) = omega (arith, s_lt) in
    let scale : w * P ≡ 2 ^ 32 = sym (pow_add s (32 - s)) ∙ ap (λ (t : ℕ). 2 ^ t) all in
    let room : suc d₁ ≤ P = lt_of_mul-lt-mul_right w (omega (arith, hi, scale, mul_comm w P)) in
    let whole : suc d₁ * w ≤ P * w = mul-le-mul_right w room in
    let d_lt : d < suc d₁ * 2 ^ 32 = omega arith in
    let d_ge : d₁ * 2 ^ 32 ≤ d = omega arith in
    let dw : d * w < suc d₁ * 2 ^ 32 * w = mul-lt-mul_of_pos_right d_lt (pow_pos s) in
    let dw' : d₁ * 2 ^ 32 * w ≤ d * w = mul-le-mul_right w d_ge in
    (
      scale,
      ap (λ (t : ℕ). 2 ^ t) less ∙ pow-succ' 2 (31 - s),
      omega (arith, dw', lo),
      omega (arith, dw, whole, scale, mul_comm w P),
    )

-- The quotient of the approximation.
near :
    (n d s : ℕ)
    → s ≡ nlz (d / 2 ^ 32)
    → 2 ^ 32 ≤ d
    → d < 2 ^ 64
    → IsNear n d
        (d * 2 ^ s / 2 ^ 32)
        (2 ^ s)
        (2 ^ (32 - s))
        (n / 2 / (d * 2 ^ s / 2 ^ 32) / 2 ^ (31 - s))
near n d s e big r =
    let (scale, even, lo, hi) = shifted d s e big r in
    let v = d * 2 ^ s / 2 ^ 32 in
    let h = 2 ^ (31 - s) in
    let product : 2 * v * h ≡ v * 2 ^ (32 - s) =
      omega (arith, ap (λ (t : ℕ). v * t) even, mul_assoc 2 v h) in
    record {
      scale = scale;
      high = omega (arith, lo);
      below = omega arith;
      above = omega arith;
      quotient =
          ap (λ (t : ℕ). t / h) (div-div-eq-div-mul n 2 v)
          ∙ div-div-eq-div-mul n (2 * v) h
          ∙ ap (λ (t : ℕ). n / t) product;
    }

-- The correction of a quotient that may be one too large.
corrected :
    (n d q : ℕ)
    → 0 < d
    → d ≤ n
    → n < 2 ^ 64
    → n / d ≤ q
    → q ≤ n
    → q * d ≤ n + d
    → (if ltb (sub64 n ((sub64 q 1 * d) % 2 ^ 64)) d then sub64 q 1 else q) ≡ n / d
corrected n d zero pos ge l lo le hi =
    let some_quotient : 1 ≤ n / d = (le-div_iff_mul-le pos).1 (omega arith) in
    absurd (omega (arith, lo, some_quotient))
corrected n d (suc q) pos ge l lo le hi =
    let one_less : sub64 (suc q) 1 ≡ q = omega arith in
    let product : (q * d) % 2 ^ 64 ≡ q * d = mod-eq_of_lt (omega (arith, hi, suc-mul q d)) in
    let rest : sub64 n (q * d) ≡ n - q * d = omega (arith, hi, suc-mul q d) in
    rw (one_less, product, rest)
      (elim (Bool-cases (ltb (n - q * d) d)) [
        | inl z ↦
            let less : n - q * d < d = ground arith in
            rw z (
              sym (
                div_unique n d q pos (omega (arith, hi, suc-mul q d))
                  (omega (arith, less, suc-mul q d))))
        | inr z ↦
            let more : d ≤ n - q * d = ground arith in
            let reached : suc q ≤ n / d =
              (le-div_iff_mul-le pos).1 (omega (arith, more, suc-mul q d)) in
            rw z (omega (arith, reached, lo))
      ])

module _ (divl : ℕ → ℕ → Run ℕ) (is_divl : IsDivl divl) where
  long_divisor-ok :
      (n d : ℕ) → n < 2 ^ 64 → 2 ^ 32 ≤ d → d < 2 ^ 64 → long_divisor divl n d ≡ ok (n / d)
  unfolding long_divisor
  long_divisor-ok n d l big r = elim (Bool-cases (ltb n d)) [
    | inl z ↦ rw z (ap ok (sym (div-eq_of_lt (ground arith))))
    | inr z ↦
        let s = nlz (d / 2 ^ 32) in
        let (scale, even, lo, hi) = shifted d s refl big r in
        let a = near n d s refl big r in
        let v = d * 2 ^ s / 2 ^ 32 in
        let q = n / 2 / v / 2 ^ (31 - s) in
        let ge : d ≤ n = ground arith in
        let le : v * 2 ^ (32 - s) ≤ d = near-le (pow_pos s) a in
        let at_least : n / d ≤ q =
          subst (λ t. n / d ≤ t) (sym a.quotient)
            (div_mono n (v * 2 ^ (32 - s)) d (mul-pos (omega (arith, a.high)) (pow_pos (32 - s)))
              le) in
        let at_most : q ≤ n =
          subst (λ t. t ≤ n) (sym a.quotient) (div-le_self n (v * 2 ^ (32 - s))) in
        rw (z, mod-eq_of_lt hi, is_divl (n / 2) v (omega arith) (omega (arith, a.high)))
          (ap ok (
            corrected n d q (omega arith) ge l at_least at_most
              (near-mul (2 ^ (31 - s)) (pow_pos s) (pow_pos (32 - s)) l big even a)))
  ]

  -- For an instruction that gives the quotient where that has 32 bits, numbers of 64 bits and a divisor that is
  -- not 0: `udiv64` returns the quotient.
  pub udiv64_lem : (n d : ℕ) → n < 2 ^ 64 → 0 < d → d < 2 ^ 64 → udiv64 divl n d ≡ ok (n / d)
  unfolding udiv64
  udiv64_lem n d l h r = elim (Bool-cases (d / 2 ^ 32 == 0)) [
    | inl z ↦ rw z (short_divisor-ok divl is_divl n d h l (ground arith))
    | inr z ↦ rw z (long_divisor-ok n d l (ground arith) r)
  ]

  -- For an instruction that gives the quotient where that has 32 bits, numbers of 64 bits and a divisor that is
  -- not 0: `umod64` returns the low 32 bits of the remainder, and so not the remainder where that has more.
  pub umod64_lem :
      (n d : ℕ) → n < 2 ^ 64 → 0 < d → d < 2 ^ 64 → umod64 divl n d ≡ ok (n % d % 2 ^ 32)
  unfolding umod64
  umod64_lem n d l h r =
      let whole = div-add-mod n d in
      let product : (d * (n / d)) % 2 ^ 64 ≡ d * (n / d) = mod-eq_of_lt (omega (arith, whole)) in
      let rest : sub64 n (d * (n / d)) ≡ n % d = omega (arith, whole) in
      rw (udiv64_lem n d l h r, product, rest) refl
