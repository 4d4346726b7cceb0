-- ===== src/Klib/Bitmap.antt =====
-- lib/kernel/bitmap.c, function by function. A bitmap is the number of bits and the array of
-- 32-bit elements (`elem_type` is the 32-bit `unsigned long` of the target). `size_t` sums wrap.
-- ASSERTs and accesses outside the array are outcomes of `Run`.
pub mod View
pub mod Ranges
pub mod Scan
mod Tests
use project2_group.Base.{
  ℕ, zero, suc, ◌+◌, ◌-◌, ◌*◌, ◌/◌, ◌%◌, ◌^◌, bit_and, bit_or, bit_xor, Bool, true, false, not,
  Option, none, some, List, [], Run, ok, ◌>>=◌, ◌>>◌, assert, deref, leb, ltb, ◌==◌, bool_eq,
  if◌then◌else◌, get_elem?, get_or, set,
}

abbrev pub elem_bits : ℕ
elem_bits = 32

-- `size_t` addition.
abbrev pub add_size : ℕ → ℕ → ℕ
add_size a b = (a + b) % 2 ^ 32

-- BITMAP_ERROR is SIZE_MAX.
abbrev pub bitmap_error : ℕ
bitmap_error = 2 ^ 32 - 1

pub record Bitmap : Type 0 where
  pub bit_cnt : ℕ
  pub bits : List ℕ

abbrev pub elem_idx : ℕ → ℕ
elem_idx bit_idx = bit_idx / elem_bits

abbrev pub bit_mask : ℕ → ℕ
bit_mask bit_idx = 2 ^ (bit_idx % elem_bits)

-- DIV_ROUND_UP (bit_cnt, ELEM_BITS).
abbrev pub elem_cnt : ℕ → ℕ
elem_cnt bit_cnt = add_size bit_cnt (elem_bits - 1) / elem_bits

abbrev pub byte_cnt : ℕ → ℕ
byte_cnt bit_cnt = 4 * elem_cnt bit_cnt

-- `~w` of an element.
abbrev pub complement : ℕ → ℕ
complement w = 2 ^ 32 - 1 - w

unfoldable pub last_mask : Bitmap → ℕ
last_mask b =
    let last_bits = b.bit_cnt % elem_bits in
    if last_bits == 0 then 2 ^ 32 - 1 else 2 ^ last_bits - 1

-- The read-modify-write instruction on one element, with its new value computed from the old.
abbrev pub update_elem : Bitmap → ℕ → (ℕ → ℕ) → Run Bitmap
update_elem b idx f = do
  w ← deref (get_elem? b.bits idx)
  ok (record b { bits = set b.bits idx (f w) })

unfoldable pub bitmap_mark : Bitmap → ℕ → Run Bitmap
bitmap_mark b bit_idx = update_elem b (elem_idx bit_idx) (λ w. bit_or w (bit_mask bit_idx))

unfoldable pub bitmap_reset : Bitmap → ℕ → Run Bitmap
bitmap_reset b bit_idx =
    update_elem b (elem_idx bit_idx) (λ w. bit_and w (complement (bit_mask bit_idx)))

unfoldable pub bitmap_flip : Bitmap → ℕ → Run Bitmap
bitmap_flip b bit_idx = update_elem b (elem_idx bit_idx) (λ w. bit_xor w (bit_mask bit_idx))

unfoldable pub bitmap_set : Bitmap → ℕ → Bool → Run Bitmap
unfolding bitmap_mark bitmap_reset
bitmap_set b idx value = do
  assert (ltb idx b.bit_cnt)
  if value then bitmap_mark b idx else bitmap_reset b idx

unfoldable pub bitmap_test : Bitmap → ℕ → Run Bool
bitmap_test b idx = do
  assert (ltb idx b.bit_cnt)
  w ← deref (get_elem? b.bits (elem_idx idx))
  ok (not (bit_and w (bit_mask idx) == 0))

abbrev pub bitmap_size : Bitmap → ℕ
bitmap_size b = b.bit_cnt

-- The ASSERTs that open each operation on a range.
abbrev pub assert_range : Bitmap → ℕ → ℕ → Run (Unit {0})
assert_range b start cnt = do
  assert (leb start b.bit_cnt)
  assert (leb (add_size start cnt) b.bit_cnt)

-- The loop of `bitmap_set_multiple`, with `n` rounds left from `i`.
set_loop : ℕ → Bitmap → ℕ → ℕ → Bool → Run Bitmap
set_loop zero b start i value = ok b
set_loop (suc n) b start i value = do
  b' ← bitmap_set b (add_size start i) value
  set_loop n b' start (i + 1) value

unfoldable pub bitmap_set_multiple : Bitmap → ℕ → ℕ → Bool → Run Bitmap
unfolding set_loop
bitmap_set_multiple b start cnt value = do assert_range b start cnt; set_loop cnt b start 0 value

unfoldable pub bitmap_set_all : Bitmap → Bool → Run Bitmap
bitmap_set_all b value = bitmap_set_multiple b 0 (bitmap_size b) value

-- `malloc` is asked for the struct and for the elements: whether it gives the first, and the second
-- with what it holds.
unfoldable pub bitmap_create : Bool → Option (List ℕ) → ℕ → Run (Option Bitmap)
bitmap_create false elems bit_cnt = ok none
bitmap_create true (some elems) bit_cnt = do
  b ← bitmap_set_all (record { bit_cnt = bit_cnt; bits = elems }) false
  ok (some b)
bitmap_create true none bit_cnt =
    if bit_cnt == 0
    then (do b ← bitmap_set_all (record { bit_cnt = bit_cnt; bits = [] }) false; ok (some b))
    else ok none

count_loop : ℕ → Bitmap → ℕ → ℕ → Bool → ℕ → Run ℕ
count_loop zero b start i value value_cnt = ok value_cnt
count_loop (suc n) b start i value value_cnt = do
  t ← bitmap_test b (add_size start i)
  count_loop n b start (i + 1) value (if bool_eq t value then value_cnt + 1 else value_cnt)

unfoldable pub bitmap_count : Bitmap → ℕ → ℕ → Bool → Run ℕ
unfolding count_loop
bitmap_count b start cnt value = do assert_range b start cnt; count_loop cnt b start 0 value 0

contains_loop : ℕ → Bitmap → ℕ → ℕ → Bool → Run Bool
contains_loop zero b start i value = ok false
contains_loop (suc n) b start i value = do
  t ← bitmap_test b (add_size start i)
  let rest = contains_loop n b start (i + 1) value
  if bool_eq t value then ok true else rest

unfoldable pub bitmap_contains : Bitmap → ℕ → ℕ → Bool → Run Bool
unfolding contains_loop
bitmap_contains b start cnt value = do assert_range b start cnt; contains_loop cnt b start 0 value

unfoldable pub bitmap_any : Bitmap → ℕ → ℕ → Run Bool
bitmap_any b start cnt = bitmap_contains b start cnt true

unfoldable pub bitmap_none : Bitmap → ℕ → ℕ → Run Bool
bitmap_none b start cnt = do found ← bitmap_contains b start cnt true; ok (not found)

unfoldable pub bitmap_all : Bitmap → ℕ → ℕ → Run Bool
bitmap_all b start cnt = do found ← bitmap_contains b start cnt false; ok (not found)

-- The loop of `bitmap_scan`: `n` values of `i` are left up to `last`.
scan_loop : ℕ → Bitmap → ℕ → ℕ → Bool → Run ℕ
scan_loop zero b i cnt value = ok bitmap_error
scan_loop (suc n) b i cnt value = do
  found ← bitmap_contains b i cnt (not value)
  let rest = scan_loop n b (i + 1) cnt value
  if not found then ok i else rest

-- `i` runs from `start` to `last`, both included.
unfoldable pub bitmap_scan : Bitmap → ℕ → ℕ → Bool → Run ℕ
unfolding scan_loop
bitmap_scan b start cnt value = do
  assert (leb start b.bit_cnt)
  if leb cnt b.bit_cnt
      then scan_loop (b.bit_cnt - cnt + 1 - start) b start cnt value
      else ok bitmap_error

unfoldable pub bitmap_scan_and_flip : Bitmap → ℕ → ℕ → Bool → Run (ℕ × Bitmap)
bitmap_scan_and_flip b start cnt value = do
  idx ← bitmap_scan b start cnt value
  if idx == bitmap_error
      then ok (idx, b)
      else (do b' ← bitmap_set_multiple b idx cnt (not value); ok (idx, b'))
