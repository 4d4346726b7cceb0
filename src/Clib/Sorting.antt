-- ===== src/Clib/Sorting.antt =====
-- lib/stdlib.c: heap sort and binary search. The array is the list of its elements, which are numbers, and an access
-- outside it is a fault; `compare` is the function that the caller gives, with `aux` applied. Indices are
-- 1-based where the code's are.
pub mod Array
pub mod Heapify
pub mod Sorted
pub mod Search
mod Tests
use project2_group.Base.{
  ℕ, zero, suc, ◌+◌, ◌-◌, ◌*◌, ◌/◌, Bool, true, false, Option, none, some, List, Run, ok, fault,
  out_of_fuel, ◌>>=◌, deref, leb, ltb, ◌==◌, if◌then◌else◌, get_elem?, set,
}
use project2_group.Clib.Text.{Comparison, negative, equal, positive}

abbrev pub is_positive : Comparison → Bool
is_positive positive = true
is_positive _ = false

abbrev pub is_negative : Comparison → Bool
is_negative negative = true
is_negative _ = false

unfoldable pub do_swap : List ℕ → ℕ → ℕ → Run (List ℕ)
do_swap array a_idx b_idx = do
  a ← deref (get_elem? array (a_idx - 1))
  b ← deref (get_elem? array (b_idx - 1))
  ok (set (set array (a_idx - 1) b) (b_idx - 1) a)

module _ (compare : ℕ → ℕ → Comparison) where
  unfoldable pub do_compare : List ℕ → ℕ → ℕ → Run Comparison
  do_compare array a_idx b_idx = do
    a ← deref (get_elem? array (a_idx - 1))
    b ← deref (get_elem? array (b_idx - 1))
    ok (compare a b)

  -- `if (child <= cnt && do_compare (array, child, max, …) > 0) max = child;`
  unfoldable pub larger : List ℕ → ℕ → ℕ → ℕ → Run ℕ
  larger array cnt child max =
      if leb child cnt
      then (do c ← do_compare array child max; ok (if is_positive c then child else max))
      else ok max

  -- The loop of `heapify`.
  unfoldable pub heapify_loop : ℕ → List ℕ → ℕ → ℕ → Run (List ℕ)
  heapify_loop zero array i cnt = out_of_fuel
  heapify_loop (suc fuel) array i cnt = do
    max ← larger array cnt (2 * i) i
    max' ← larger array cnt (2 * i + 1) max
    let rest = do_swap array i max' >>= λ array'. heapify_loop fuel array' max' cnt
    if max' == i then ok array else rest

  -- The index at least doubles in every round but the last.
  unfoldable pub heapify : List ℕ → ℕ → ℕ → Run (List ℕ)
  heapify array i cnt = heapify_loop (cnt + 1) array i cnt

  -- `for (i = i; i > 0; i--)`
  unfoldable pub build_heap : ℕ → List ℕ → ℕ → Run (List ℕ)
  build_heap zero array cnt = ok array
  build_heap (suc i) array cnt = heapify array (suc i) cnt >>= λ array'. build_heap i array' cnt

  -- `for (i = i; i > 1; i--)`
  unfoldable pub sort_heap : ℕ → List ℕ → Run (List ℕ)
  sort_heap zero array = ok array
  sort_heap (suc zero) array = ok array
  sort_heap (suc (suc i)) array = do_swap array 1 (suc (suc i)) >>= λ array'.
      heapify array' 1 (suc i) >>= λ array''. sort_heap (suc i) array''

  unfoldable pub sort : List ℕ → ℕ → Run (List ℕ)
  sort array cnt = build_heap (cnt / 2) array cnt >>= λ array'. sort_heap cnt array'

  -- The loop of `binary_search`; `first` and `last` are indices, from 0 on. The result is the index of a match.
  unfoldable pub search_loop : ℕ → ℕ → List ℕ → ℕ → ℕ → Run (Option ℕ)
  search_loop zero key array first last = if ltb first last then out_of_fuel else ok none
  search_loop (suc fuel) key array first last =
      let middle = first + (last - first) / 2 in
      let below = search_loop fuel key array first middle in
      let above = search_loop fuel key array (middle + 1) last in
      if ltb first last
      then (do
        m ← deref (get_elem? array middle)
        elim (compare key m) [ negative ↦ below | positive ↦ above | equal ↦ ok (some middle) ])
      else ok none

  -- Each round leaves fewer elements.
  unfoldable pub binary_search : ℕ → List ℕ → ℕ → Run (Option ℕ)
  binary_search key array cnt = search_loop cnt key array 0 cnt
