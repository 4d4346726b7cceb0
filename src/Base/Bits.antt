-- ===== src/Base/Bits.antt =====
-- The bits of a number, and what `&`, `|`, `^` do to each of them, at any width.
use Prim.Native.Nat.{
  ℕ, zero, suc, ◌+◌, ◌-◌, ◌*◌, ◌/◌, ◌%◌, ◌^◌, ◌≤◌, ◌<◌, min, max, bit_and, bit_or, bit_xor, digits,
  bitwise, differ, bit_and-bitwise, bit_or-bitwise, bit_xor-bitwise,
}
use native.Mathlib.Nat.{pow-suc, pow-le-pow_right}
use mathlib.Core.Path.{◌≡◌, refl}
use mathlib.Core.Bool.{Bool, false, not, ◌&&◌, ◌||◌, xor}
use native.Mathlib.Omega.{arith}
use project2_group.Base.Tests.{◌==◌}

-- Bit `k` of a word.
unfoldable pub bit_of : ℕ → ℕ → Bool
bit_of w zero = w % 2 == 1
bit_of w (suc k) = bit_of (w / 2) k

-- The recursion on digits takes at most as many rounds as the first number.
module _ (z : ℕ → ℕ) (f : ℕ → ℕ → ℕ) where
  digits-more :
      (rounds more a b : ℕ) → a ≤ rounds → a ≤ more → digits z f rounds a b ≡ digits z f more a b
  digits-more zero zero a b h k = refl
  digits-more zero (suc m) zero b h k = refl
  digits-more zero (suc m) (suc a) b h k = absurd (omega arith)
  digits-more (suc n) zero zero b h k = refl
  digits-more (suc n) zero (suc a) b h k = absurd (omega arith)
  digits-more (suc n) (suc m) zero b h k = refl
  digits-more (suc n) (suc m) (suc a) b h k =
      omega (arith, digits-more n m (suc a / 2) (b / 2) (omega arith) (omega arith))

  -- The lowest digit splits off.
  bitwise_halves :
      (a b : ℕ)
      → bitwise z f (suc a) b ≡ bitwise z f (suc a / 2) (b / 2) * 2 + f (suc a % 2) (b % 2)
  bitwise_halves a b =
      omega (arith, digits-more a (suc a / 2) (suc a / 2) (b / 2) (omega arith) (omega arith))

pub and_halves : (a b : ℕ) → bit_and a b ≡ bit_and (a / 2) (b / 2) * 2 + min (a % 2) (b % 2)
and_halves zero b = simp bit_and-bitwise (omega arith)
and_halves (suc a) b = simp bit_and-bitwise (bitwise_halves (λ y. 0) min a b)

pub or_halves : (a b : ℕ) → bit_or a b ≡ bit_or (a / 2) (b / 2) * 2 + max (a % 2) (b % 2)
or_halves zero b = simp bit_or-bitwise (omega arith)
or_halves (suc a) b = simp bit_or-bitwise (bitwise_halves (λ y. y) max a b)

pub xor_halves : (a b : ℕ) → bit_xor a b ≡ bit_xor (a / 2) (b / 2) * 2 + differ (a % 2) (b % 2)
xor_halves zero b = simp bit_xor-bitwise (omega arith)
xor_halves (suc a) b = simp bit_xor-bitwise (bitwise_halves (λ y. y) differ a b)

differ_lem : (a b : ℕ) → a < 2 → b < 2 → differ a b ≡ (a + b) % 2
differ_lem zero b h k = omega arith
differ_lem (suc a) zero h k = omega arith
differ_lem (suc a) (suc b) h k =
    let e : a ≡ 0 = omega arith in let e' : b ≡ 0 = omega arith in rw (e, e')

pub bit_of-or : (k a b : ℕ) → bit_of (bit_or a b) k ≡ (bit_of a k || bit_of b k)
unfolding bit_of
bit_of-or zero a b = ground (arith, or_halves a b)
bit_of-or (suc k) a b =
    let e : bit_or a b / 2 ≡ bit_or (a / 2) (b / 2) = omega (arith, or_halves a b) in
    rw e (bit_of-or k (a / 2) (b / 2))

pub bit_of-and : (k a b : ℕ) → bit_of (bit_and a b) k ≡ (bit_of a k && bit_of b k)
unfolding bit_of
bit_of-and zero a b = ground (arith, and_halves a b)
bit_of-and (suc k) a b =
    let e : bit_and a b / 2 ≡ bit_and (a / 2) (b / 2) = omega (arith, and_halves a b) in
    rw e (bit_of-and k (a / 2) (b / 2))

pub bit_of-xor : (k a b : ℕ) → bit_of (bit_xor a b) k ≡ xor (bit_of a k) (bit_of b k)
unfolding bit_of xor
bit_of-xor zero a b = ground (arith, xor_halves a b, differ_lem (a % 2) (b % 2))
bit_of-xor (suc k) a b =
    let e : bit_xor a b / 2 ≡ bit_xor (a / 2) (b / 2) =
      omega (arith, xor_halves a b, differ_lem (a % 2) (b % 2)) in
    rw e (bit_of-xor k (a / 2) (b / 2))

bit_of_zero : (k : ℕ) → bit_of 0 k ≡ false
unfolding bit_of
bit_of_zero zero = refl
bit_of_zero (suc k) = bit_of_zero k

pub bit_of-pow : (k i : ℕ) → bit_of (2 ^ k) i ≡ (i == k)
unfolding bit_of
bit_of-pow zero zero = refl
bit_of-pow zero (suc i) = ground (arith, bit_of_zero i)
bit_of-pow (suc k) zero = ground (arith, pow-suc 2 k)
bit_of-pow (suc k) (suc i) =
    let e : 2 ^ suc k / 2 ≡ 2 ^ k = omega (arith, pow-suc 2 k) in
    rw e (ground (arith, bit_of-pow k i))

-- `~x` on n bits.
pub bit_of_complement :
    (n x i : ℕ) → x < 2 ^ n → i < n → bit_of (2 ^ n - 1 - x) i ≡ not (bit_of x i)
unfolding bit_of
bit_of_complement zero x i h k = elim k [ ]
bit_of_complement (suc n) x zero h k = ground (arith, pow-suc 2 n)
bit_of_complement (suc n) x (suc i) h k =
    let e : (2 ^ suc n - 1 - x) / 2 ≡ 2 ^ n - 1 - x / 2 = omega (arith, pow-suc 2 n) in
    rw e (bit_of_complement n (x / 2) i (omega (arith, pow-suc 2 n)) (omega arith))

pub and-zero_below : (n a : ℕ) → a ≤ n → bit_and a 0 ≡ 0
and-zero_below n zero h = omega (arith, and_halves 0 0)
and-zero_below zero (suc a) h = absurd (omega arith)
and-zero_below (suc n) (suc a) h =
    omega (arith, and_halves (suc a) 0, and-zero_below n (suc a / 2) (omega arith))

-- `w & (1 << k)` is zero exactly if bit k is clear.
pub and-pow : (k w : ℕ) → (bit_and w (2 ^ k) == 0) ≡ not (bit_of w k)
unfolding bit_of
and-pow zero w = ground (arith, and_halves w 1, and-zero_below (w / 2) (w / 2))
and-pow (suc k) w =
    let half : 2 ^ suc k / 2 ≡ 2 ^ k = omega (arith, pow-suc 2 k) in
    let e : bit_and w (2 ^ suc k) ≡ bit_and (w / 2) (2 ^ suc k / 2) * 2 =
      omega (arith, and_halves w (2 ^ suc k), pow-suc 2 k) in
    rw (e, half) (ground (arith, and-pow k (w / 2)))

pub pow_lt_word : (k : ℕ) → k < 32 → 2 ^ k < 2 ^ 32
pow_lt_word k h =
    omega (arith, pow-le-pow_right {n = 2} (omega arith) {i = k} {j = 31} (omega arith))
