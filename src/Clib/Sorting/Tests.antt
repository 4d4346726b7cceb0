-- ===== src/Clib/Sorting/Tests.antt =====
-- Runs of `sort` and `binary_search` on numbers that compare by their tens.
use project2_group.Base.{
  ℕ, ◌/◌, ◌≡◌, refl, Option, List, [], ◌∷◌, ok, arith, ltb, if◌then◌else◌, zero, suc,
}
use project2_group.Clib.Text.{Comparison, negative, equal, positive}
use project2_group.Clib.Sorting.{
  sort, build_heap, sort_heap, heapify, heapify_loop, larger, do_compare, do_swap, binary_search,
}
use project2_group.Clib.Sorting.Heapify.{IsRanked}
use project2_group.Clib.Sorting.Sorted.{Sorts, sort_lem}
use project2_group.Clib.Sorting.Search.{IsOrdered, IsMatch, binary_search_lem}

abbrev tens : ℕ → ℕ
tens n = n / 10

abbrev compare_tens : ℕ → ℕ → Comparison
compare_tens a b =
    if ltb (tens a) (tens b) then negative else if ltb (tens b) (tens a) then positive else equal

compare_tens-IsRanked : IsRanked compare_tens tens
compare_tens-IsRanked = record { above = λ a b. ground arith; below = λ a b. ground arith }

-- The last element is behind the count.
sort_test :
    sort compare_tens (52 ∷ 31 ∷ 47 ∷ 5 ∷ 33 ∷ 1 ∷ []) 5 ≡ ok (5 ∷ 33 ∷ 31 ∷ 47 ∷ 52 ∷ 1 ∷ [])
unfolding sort build_heap sort_heap heapify heapify_loop larger do_compare do_swap
sort_test = refl

sort_lem_example :
    Sorts tens 5
      (52 ∷ 31 ∷ 47 ∷ 5 ∷ 33 ∷ 1 ∷ [])
      (sort compare_tens (52 ∷ 31 ∷ 47 ∷ 5 ∷ 33 ∷ 1 ∷ []) 5)
sort_lem_example =
    sort_lem compare_tens tens compare_tens-IsRanked (52 ∷ 31 ∷ 47 ∷ 5 ∷ 33 ∷ 1 ∷ []) 5
      (omega arith)

abbrev in_order : List ℕ
in_order = 5 ∷ 33 ∷ 47 ∷ []

in_order-IsOrdered : IsOrdered tens 3 in_order
in_order-IsOrdered zero zero h k = omega arith
in_order-IsOrdered zero (suc zero) h k = omega arith
in_order-IsOrdered zero (suc (suc zero)) h k = omega arith
in_order-IsOrdered (suc zero) (suc zero) h k = omega arith
in_order-IsOrdered (suc zero) (suc (suc zero)) h k = omega arith
in_order-IsOrdered (suc (suc zero)) (suc (suc zero)) h k = omega arith
in_order-IsOrdered i (suc (suc (suc j))) h k = absurd (omega arith)
in_order-IsOrdered (suc i) zero h k = absurd (omega arith)
in_order-IsOrdered (suc (suc i)) (suc zero) h k = absurd (omega arith)
in_order-IsOrdered (suc (suc (suc i))) (suc (suc zero)) h k = absurd (omega arith)

binary_search_lem_example :
    (r : Option ℕ) × (binary_search compare_tens 39 in_order 3 ≡ ok r)
    × IsMatch tens 39 3 in_order r
binary_search_lem_example =
    binary_search_lem compare_tens tens compare_tens-IsRanked 39 3 in_order (omega arith)
      in_order-IsOrdered
