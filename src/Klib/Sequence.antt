-- ===== src/Klib/Sequence.antt =====
-- More functions of lib/kernel/list.c on the sequence of the elements. An element is the number that stands for
-- its address; `none` is the ASSERT that the list is not empty.
mod Tests
use project2_group.Base.{
  ℕ, zero, suc, ◌+◌, Bool, true, false, Option, none, some, List, [], ◌∷◌, ◌++◌, if◌then◌else◌,
}

unfoldable pub list_push_front : List ℕ → ℕ → List ℕ
list_push_front l elem = elem ∷ l

unfoldable pub list_front : List ℕ → Option ℕ
list_front [] = none
list_front (e ∷ es) = some e

unfoldable pub list_back : List ℕ → Option ℕ
list_back [] = none
list_back (e ∷ []) = some e
list_back (e ∷ e' ∷ es) = list_back (e' ∷ es)

-- The last element and the list without it.
unfoldable pub list_pop_back : List ℕ → Option (ℕ × List ℕ)
list_pop_back [] = none
list_pop_back (e ∷ []) = some (e, [])
list_pop_back (e ∷ e' ∷ es) = elim (list_pop_back (e' ∷ es)) [
  | none ↦ none
  | some r ↦ some (r.0, e ∷ r.1)
]

unfoldable pub list_size : List ℕ → ℕ
list_size [] = 0
list_size (e ∷ es) = list_size es + 1

unfoldable pub list_empty : List ℕ → Bool
list_empty [] = true
list_empty (e ∷ es) = false

-- The loop goes from the front and swaps the links of each element.
reverse_loop : List ℕ → List ℕ → List ℕ
reverse_loop [] done = done
reverse_loop (e ∷ es) done = reverse_loop es (e ∷ done)

unfoldable pub list_reverse : List ℕ → List ℕ
unfolding reverse_loop
list_reverse l = reverse_loop l []

-- The loops of `list_max` and `list_min`, with the best element so far.
max_loop : (ℕ → ℕ → Bool) → ℕ → List ℕ → ℕ
max_loop less max [] = max
max_loop less max (e ∷ es) = max_loop less (if less max e then e else max) es

-- `none` is the end of an empty list.
unfoldable pub list_max : (ℕ → ℕ → Bool) → List ℕ → Option ℕ
unfolding max_loop
list_max less [] = none
list_max less (e ∷ es) = some (max_loop less e es)

min_loop : (ℕ → ℕ → Bool) → ℕ → List ℕ → ℕ
min_loop less min [] = min
min_loop less min (e ∷ es) = min_loop less (if less e min then e else min) es

unfoldable pub list_min : (ℕ → ℕ → Bool) → List ℕ → Option ℕ
unfolding min_loop
list_min less [] = none
list_min less (e ∷ es) = some (min_loop less e es)

-- The loop of `list_unique` behind the element `e`: what stays behind it, and the duplicates.
unique_loop : (ℕ → ℕ → Bool) → ℕ → List ℕ → List ℕ → List ℕ × List ℕ
unique_loop less e [] duplicates = ([], duplicates)
unique_loop less e (n ∷ ns) duplicates =
    let same = if less e n then false else if less n e then false else true in
    let dropped = unique_loop less e ns (duplicates ++ n ∷ []) in
    let kept = unique_loop less n ns duplicates in
    elim same [ true ↦ dropped | false ↦ (n ∷ kept.0, kept.1) ]

-- The list, and the list of duplicates, behind whose elements those of this list go.
unfoldable pub list_unique : (ℕ → ℕ → Bool) → List ℕ → List ℕ → List ℕ × List ℕ
unfolding unique_loop
list_unique less [] duplicates = ([], duplicates)
list_unique less (e ∷ es) duplicates = let r = unique_loop less e es duplicates in (e ∷ r.0, r.1)
