-- ===== src/Clib/Arithmetic/LeadingZeros.antt =====
-- `nlz` counts the zero bits above the highest bit of a number.
use native.Mathlib.Nat.{
  pow-zero, pow-suc, pow-le-pow_right, mul_assoc, add-suc, add-zero, mod-eq_of_lt,
  mul-lt-mul_of_pos_right, mul-le-mul_right, le-mul_of_pos_right, mul-one, mul_comm,
}
use project2_group.Base.{
  ℕ, zero, suc, ◌+◌, ◌*◌, ◌^◌, ◌≤◌, ◌<◌, ◌≡◌, refl, sym, ap, ◌∙◌, subst, inl, inr, arith, leb, ltb,
  Bool-cases,
}
use project2_group.Clib.Arithmetic.{shift_up, nlz}

-- A count, and a number that has been shifted by it, between `low` and 2 ^ 32.
abbrev IsShifted : ℕ → ℕ → ℕ × ℕ → Type 0
IsShifted x low p = (p.1 ≡ x * 2 ^ p.0) × (low ≤ p.1) × (p.1 < 2 ^ 32)

pub pow_pos : (k : ℕ) → 0 < 2 ^ k
pow_pos zero = omega (arith, pow-zero 2)
pow_pos (suc k) = omega (arith, pow-suc 2 k, pow_pos k)

pub pow_add : (m n : ℕ) → 2 ^ (m + n) ≡ 2 ^ m * 2 ^ n
pow_add m zero = simp (add-zero, pow-zero, mul-one) refl
pow_add m (suc n) =
    simp (add-suc, pow-suc) (ap (λ (t : ℕ). t * 2) (pow_add m n) ∙ mul_assoc (2 ^ m) (2 ^ n) 2)

shift_up-IsShifted :
    (x low limit k : ℕ) (p : ℕ × ℕ)
    → (limit + 1) * 2 ^ k ≡ 2 ^ 32
    → low * 2 ^ k ≤ limit + 1
    → IsShifted x low p
    → IsShifted x (low * 2 ^ k) (shift_up limit k p)
unfolding shift_up
shift_up-IsShifted x low limit k (n, y) e h (a, b, c) = elim (Bool-cases (leb y limit)) [
  | inl z ↦
      let l : y < limit + 1 = ground arith in
      let fits : y * 2 ^ k < 2 ^ 32 =
        subst (λ t. y * 2 ^ k < t) e (mul-lt-mul_of_pos_right l (pow_pos k)) in
      rw (z, mod-eq_of_lt fits)
        (
          ap (λ t. t * 2 ^ k) a ∙ mul_assoc x (2 ^ n) (2 ^ k) ∙ ap (λ t. x * t) (sym (pow_add n k)),
          mul-le-mul_right (2 ^ k) b,
          fits,
        )
  | inr z ↦ rw z (a, ground arith, c)
]

-- For a number of 32 bits that is not 0, `nlz` is at most 31, and shifting the number left by it sets the highest bit
-- and loses none.
pub nlz_lem :
    (x : ℕ)
    → 0 < x
    → x < 2 ^ 32
    → (nlz x < 32) × (2 ^ 31 ≤ x * 2 ^ nlz x) × (x * 2 ^ nlz x < 2 ^ 32)
unfolding nlz
nlz_lem x h l =
    let a =
      shift_up-IsShifted x 1 0x0000FFFF 16 (0, x) refl (omega arith)
        (omega (arith, pow-zero 2), h, l) in
    let b = shift_up-IsShifted x _ 0x00FFFFFF 8 _ refl (omega arith) a in
    let c = shift_up-IsShifted x _ 0x0FFFFFFF 4 _ refl (omega arith) b in
    let d = shift_up-IsShifted x _ 0x3FFFFFFF 2 _ refl (omega arith) c in
    let (e, lo, hi) = shift_up-IsShifted x _ 0x7FFFFFFF 1 _ refl (omega arith) d in
    (
      below (nlz x) (subst (λ t. t < 2 ^ 32) e hi),
      subst (λ t. 2 ^ 31 ≤ t) e lo,
      subst (λ t. t < 2 ^ 32) e hi,
    )
  where
    below : (n : ℕ) → x * 2 ^ n < 2 ^ 32 → n < 32
    below n q = elim (Bool-cases (ltb n 32)) [
      | inl z ↦ ground arith
      | inr z ↦
          let more : 32 ≤ n = ground arith in
          let large : 2 ^ 32 ≤ 2 ^ n = pow-le-pow_right (omega arith) more in
          let grown : 2 ^ n ≤ 2 ^ n * x = le-mul_of_pos_right (2 ^ n) h in
          absurd (omega (arith, large, grown, mul_comm (2 ^ n) x))
    ]
