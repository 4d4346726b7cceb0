-- ===== src/Clib/Arithmetic/Signed.antt =====
-- `sdiv64` on signed numbers given by sign and magnitude.
use native.Mathlib.Nat.{zero-div}
use project2_group.Base.{
  ℕ, zero, suc, ◌/◌, ◌^◌, ◌<◌, ◌≡◌, refl, ap, arith, ◌==◌, Bool, true, false, not, ◌&&◌, Run, ok,
  if◌then◌else◌, bool_eq,
}
use project2_group.Clib.Arithmetic.{sub64, is_negative64, abs64, sdiv64}
use project2_group.Clib.Arithmetic.Division.{IsDivl, udiv64_lem}

-- The bit pattern of the number with the magnitude `a`, below zero if `s`.
abbrev pub signed : Bool → ℕ → ℕ
signed s a = if s then sub64 0 a else a

-- Whether two signs differ.
abbrev pub differ : Bool → Bool → Bool
differ true t = not t
differ false t = t

abs64-signed : (s : Bool) (a : ℕ) → a < 2 ^ 63 → abs64 (signed s a) ≡ a
abs64-signed true a h = ground arith
abs64-signed false a h = ground arith

negative-signed : (s : Bool) (a : ℕ) → a < 2 ^ 63 → is_negative64 (signed s a) ≡ (s && not (a == 0))
negative-signed true a h = ground arith
negative-signed false a h = ground arith

zero_signed : (x y : Bool) → (if x then 0 else sub64 0 0) ≡ signed y 0
zero_signed true true = refl
zero_signed true false = refl
zero_signed false true = refl
zero_signed false false = refl

same_sign : (s t : Bool) (q : ℕ) → (if bool_eq s t then q else sub64 0 q) ≡ signed (differ s t) q
same_sign true true q = refl
same_sign true false q = refl
same_sign false true q = refl
same_sign false false q = refl

and_true : (s : Bool) → (s && true) ≡ s
and_true true = refl
and_true false = refl

-- The sign of a quotient.
sign :
    (s t : Bool) (a b : ℕ)
    → 0 < b
    → b < 2 ^ 63
    → a < 2 ^ 63
    → (if bool_eq (s && not (a == 0)) (t && not (b == 0)) then a / b else sub64 0 (a / b))
      ≡ signed (differ s t) (a / b)
sign s t zero b h hb l = rw (zero-div b) (zero_signed _ (differ s t))
sign s t (suc a) b h hb l =
    let not_zero : (b == 0) ≡ false = ground arith in
    let not_zero' : (suc a == 0) ≡ false = ground arith in
    rw (not_zero, not_zero', and_true s, and_true t) (same_sign s t (suc a / b))

module _ (divl : ℕ → ℕ → Run ℕ) (is_divl : IsDivl divl) where
  -- For an instruction that gives the quotient where that has 32 bits, magnitudes below 2 ^ 63 and a divisor that
  -- is not 0: `sdiv64` returns the quotient of the magnitudes, below zero if and only if the signs differ and it
  -- is not 0.
  pub sdiv64_lem :
      (s t : Bool) (a b : ℕ)
      → a < 2 ^ 63
      → 0 < b
      → b < 2 ^ 63
      → sdiv64 divl (signed s a) (signed t b) ≡ ok (signed (differ s t) (a / b))
  unfolding sdiv64
  sdiv64_lem s t a b l h r =
      rw
        (
          abs64-signed s a l,
          abs64-signed t b r,
          udiv64_lem divl is_divl a b (omega arith) h (omega arith),
          negative-signed s a l,
          negative-signed t b r,
        )
        (ap ok (sign s t a b h r l))
