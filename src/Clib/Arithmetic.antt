-- ===== src/Clib/Arithmetic.antt =====
-- lib/arithmetic.c: division of 64-bit numbers on a machine that divides 64 by 32 bits. A `uint64_t` is a number
-- below 2 ^ 64; an `int64_t` is its bit pattern. `divl` is the machine's instruction, which traps where the quotient
-- does not fit in 32 bits.
pub mod LeadingZeros
pub mod Division
pub mod Signed
mod Tests
use project2_group.Base.{
  ℕ, ◌+◌, ◌-◌, ◌*◌, ◌/◌, ◌%◌, ◌^◌, Bool, not, Run, ok, fault, ◌>>=◌, leb, ltb, ◌==◌, if◌then◌else◌,
  ◌≡◌, ◌<◌,
}
use project2_group.Base.{bool_eq}

abbrev pub sub64 : ℕ → ℕ → ℕ
sub64 a b = (a + 2 ^ 64 - b) % 2 ^ 64

-- One `if` of `nlz` on the count and the number: a number of at most `limit` is shifted by `k`.
unfoldable pub shift_up : ℕ → ℕ → ℕ × ℕ → ℕ × ℕ
shift_up limit k (n, x) = if leb x limit then (n + k, (x * 2 ^ k) % 2 ^ 32) else (n, x)

-- The number of leading zero bits.
unfoldable pub nlz : ℕ → ℕ
nlz x =
    (shift_up 0x7FFFFFFF 1 (
      shift_up 0x3FFFFFFF 2
        (shift_up 0x0FFFFFFF 4 (shift_up 0x00FFFFFF 8 (shift_up 0x0000FFFF 16 (0, x)))))).0

abbrev pub is_negative64 : ℕ → Bool
is_negative64 n = not (ltb n (2 ^ 63))

abbrev pub abs64 : ℕ → ℕ
abs64 n = if is_negative64 n then sub64 0 n else n

module _ (divl : ℕ → ℕ → Run ℕ) where
  -- The branch of `udiv64` for a divisor of 32 bits; division by 0 traps.
  unfoldable pub short_divisor : ℕ → ℕ → Run ℕ
  short_divisor n d =
      let n₁ = n / 2 ^ 32 in
      let n₀ = n % 2 ^ 32 in
      let d₀ = d % 2 ^ 32 in
      if d₀ == 0 then fault else (do
        q ← divl ((2 ^ 32 * (n₁ % d₀) + n₀) % 2 ^ 64) d₀
        ok ((q + 2 ^ 32 * (n₁ / d₀)) % 2 ^ 64))

  -- The other branch.
  unfoldable pub long_divisor : ℕ → ℕ → Run ℕ
  long_divisor n d =
      let s = nlz (d / 2 ^ 32) in
      if ltb n d then ok 0 else (do
        q₀ ← divl (n / 2) ((d * 2 ^ s) % 2 ^ 64 / 2 ^ 32)
        let q = q₀ / 2 ^ (31 - s)
        ok (if ltb (sub64 n ((sub64 q 1 * d) % 2 ^ 64)) d then sub64 q 1 else q))

  unfoldable pub udiv64 : ℕ → ℕ → Run ℕ
  udiv64 n d = if d / 2 ^ 32 == 0 then short_divisor n d else long_divisor n d

  -- The result is of 32 bits.
  unfoldable pub umod64 : ℕ → ℕ → Run ℕ
  umod64 n d = do q ← udiv64 n d; ok (sub64 n ((d * q) % 2 ^ 64) % 2 ^ 32)

  unfoldable pub sdiv64 : ℕ → ℕ → Run ℕ
  sdiv64 n d = do
    q_abs ← udiv64 (abs64 n) (abs64 d)
    ok (if bool_eq (is_negative64 n) (is_negative64 d) then q_abs else sub64 0 q_abs)

  unfoldable pub smod64 : ℕ → ℕ → Run ℕ
  smod64 n d = do q ← sdiv64 n d; ok (sub64 n ((d * q) % 2 ^ 64) % 2 ^ 32)
