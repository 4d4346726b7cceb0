-- ===== src/Clib/Arithmetic/Tests.antt =====
-- Runs of the divisions with an instruction that traps where it must.
use project2_group.Base.{
  ℕ, ◌-◌, ◌*◌, ◌/◌, ◌%◌, ◌^◌, ◌≡◌, refl, Run, ok, fault, ltb, if◌then◌else◌, arith, true, false,
}
use project2_group.Clib.Arithmetic.{
  shift_up, nlz, udiv64, umod64, sdiv64, short_divisor, long_divisor,
}
use project2_group.Clib.Arithmetic.Division.{IsDivl, udiv64_lem, umod64_lem}
use project2_group.Clib.Arithmetic.Signed.{signed, sdiv64_lem}

abbrev divl : ℕ → ℕ → Run ℕ
divl n d = if ltb n (d * 2 ^ 32) then ok (n / d) else fault

divl-IsDivl : IsDivl divl
divl-IsDivl n d h l = ground arith

nlz_test : nlz 1 ≡ 31
unfolding nlz shift_up
nlz_test = refl

-- A quotient that has to be corrected.
udiv64_test : udiv64 divl (2 ^ 64 - 1) (2 ^ 33 - 1) ≡ ok 2147483648
unfolding udiv64 long_divisor nlz shift_up
udiv64_test = refl

-- -7 / 2 is -3.
sdiv64_test : sdiv64 divl (2 ^ 64 - 7) 2 ≡ ok (2 ^ 64 - 3)
unfolding sdiv64 udiv64 short_divisor
sdiv64_test = refl

-- The remainder of 2 ^ 40 by 2 ^ 41 is 2 ^ 40, but `umod64` returns 0.
umod64_test : umod64 divl (2 ^ 40) (2 ^ 41) ≡ ok 0
unfolding umod64 udiv64 long_divisor
umod64_test = refl

udiv64_lem_example : udiv64 divl (2 ^ 64 - 1) (2 ^ 33 - 1) ≡ ok ((2 ^ 64 - 1) / (2 ^ 33 - 1))
udiv64_lem_example =
    udiv64_lem divl divl-IsDivl (2 ^ 64 - 1) (2 ^ 33 - 1) (omega arith) (omega arith) (omega arith)

umod64_lem_example : umod64 divl (2 ^ 40) (2 ^ 41) ≡ ok (2 ^ 40 % 2 ^ 41 % 2 ^ 32)
umod64_lem_example =
    umod64_lem divl divl-IsDivl (2 ^ 40) (2 ^ 41) (omega arith) (omega arith) (omega arith)

-- -7 / 2 is -3.
sdiv64_lem_example : sdiv64 divl (signed true 7) (signed false 2) ≡ ok (signed true 3)
sdiv64_lem_example =
    sdiv64_lem divl divl-IsDivl true false 7 2 (omega arith) (omega arith) (omega arith)
