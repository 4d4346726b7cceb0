-- ===== src/Klib/Bitmap/Tests.antt =====
-- Runs of the bitmap functions, and their theorems at a bitmap of 40 bits in two elements.
use project2_group.Base.{
  ℕ, ◌+◌, ◌<◌, ◌≤◌, ◌≡◌, refl, Bool, true, false, not, [], ◌∷◌, ok, some, arith, if◌then◌else◌,
  ◌==◌, ltb,
}
use project2_group.Klib.Bitmap.{
  Bitmap, bitmap_error, bitmap_flip, bitmap_set, bitmap_test, bitmap_set_multiple, bitmap_count,
  bitmap_contains, bitmap_all, bitmap_any, bitmap_none, bitmap_scan, bitmap_scan_and_flip,
  bitmap_create, last_mask,
}
use project2_group.Klib.Bitmap.View.{bit, IsValid, bitmap_flip_lem}
use project2_group.Klib.Bitmap.Ranges.{
  IsSetRange, Uniform, bitmap_set_multiple-ok, bitmap_count_lem, bitmap_all_lem, bitmap_none_lem,
  bitmap_create_lem,
}
use project2_group.Klib.Bitmap.Scan.{IsScan, IsFlip, bitmap_scan_lem, bitmap_scan_and_flip_lem}

-- Bits 0 and 2 are set.
abbrev sample : Bitmap
sample = record { bit_cnt = 40; bits = 5 ∷ 0 ∷ [] }

sample-IsValid : IsValid sample
sample-IsValid = record { elems = refl; small = omega arith }

scan_three : bitmap_scan sample 0 3 false ≡ ok 3
unfolding bitmap_scan bitmap_contains bitmap_test
scan_three = refl

-- The group crosses from the first element to the second.
flip_over_elements :
    bitmap_scan_and_flip sample 30 4 false
    ≡ ok (30, record { bit_cnt = 40; bits = (5 + 3221225472) ∷ 3 ∷ [] })
unfolding bitmap_scan_and_flip bitmap_scan bitmap_contains bitmap_test bitmap_set_multiple
    bitmap_set
flip_over_elements = refl

no_room : bitmap_scan sample 38 3 false ≡ ok bitmap_error
unfolding bitmap_scan bitmap_contains bitmap_test
no_room = refl

-- With `cnt` 0 the result is `start`, not 0.
empty_group : bitmap_scan_and_flip sample 7 0 false ≡ ok (7, sample)
unfolding bitmap_scan_and_flip bitmap_scan bitmap_contains bitmap_set_multiple
empty_group = refl

last_mask-sample : last_mask sample ≡ 255
unfolding last_mask
last_mask-sample = refl

bitmap_flip_test :
    (c : Bitmap) × (bitmap_flip sample 33 ≡ ok c)
    × IsValid c
    × (c.bit_cnt ≡ 40)
    × ((j : ℕ) → bit c j ≡ (if 33 == j then not (bit sample j) else bit sample j))
bitmap_flip_test = bitmap_flip_lem sample-IsValid 33 (omega arith)

bitmap_set_multiple-ok_test :
    (c : Bitmap) × (bitmap_set_multiple sample 30 4 true ≡ ok c) × IsSetRange sample c 30 34 true
bitmap_set_multiple-ok_test = bitmap_set_multiple-ok sample 30 4 true sample-IsValid (omega arith)

bitmap_count_lem_test :
    (n m : ℕ) × (bitmap_count sample 0 8 true ≡ ok n)
    × (bitmap_count sample 0 8 false ≡ ok m)
    × (n + m ≡ 8)
    × (bitmap_contains sample 0 8 true ≡ ok (ltb 0 n))
bitmap_count_lem_test = bitmap_count_lem sample 0 8 true sample-IsValid (omega arith)

bitmap_all_test :
    (r : Bool) × (bitmap_all sample 0 3 ≡ ok r)
    × (r ≡ true → Uniform (bit sample) 0 3 true)
    × (r ≡ false → (j : ℕ) × (0 ≤ j) × (j < 0 + 3) × (bit sample j ≡ false))
bitmap_all_test = bitmap_all_lem sample 0 3 sample-IsValid (omega arith)

bitmap_none_test :
    (r : Bool) × (bitmap_none sample 3 30 ≡ ok r)
    × (bitmap_any sample 3 30 ≡ ok (not r))
    × (r ≡ true → Uniform (bit sample) 3 30 false)
    × (r ≡ false → (j : ℕ) × (3 ≤ j) × (j < 3 + 30) × (bit sample j ≡ true))
bitmap_none_test = bitmap_none_lem sample 3 30 sample-IsValid (omega arith)

bitmap_create_test :
    (b : Bitmap) × (bitmap_create true (some (9 ∷ 7 ∷ [])) 40 ≡ ok (some b))
    × IsValid b
    × (b.bit_cnt ≡ 40)
    × Uniform (bit b) 0 40 false
bitmap_create_test = bitmap_create_lem (9 ∷ 7 ∷ []) 40 refl (omega arith)

bitmap_scan_lem_test : (r : ℕ) × (bitmap_scan sample 0 3 false ≡ ok r) × IsScan sample 0 3 false r
bitmap_scan_lem_test = bitmap_scan_lem sample 0 3 false sample-IsValid (omega arith)

bitmap_scan_and_flip_lem_example :
    (r : ℕ) × (c : Bitmap) × (bitmap_scan_and_flip sample 0 3 false ≡ ok (r, c))
    × IsFlip sample 0 3 false r c
bitmap_scan_and_flip_lem_example =
    bitmap_scan_and_flip_lem sample 0 3 false sample-IsValid (omega arith)
