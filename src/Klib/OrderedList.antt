-- ===== src/Klib/OrderedList.antt =====
-- The functions of lib/kernel/list.c that the scheduler uses, on the sequence of the elements.
use project2_group.Base.{ℕ, Bool, Option, none, some, List, [], ◌∷◌, ◌++◌, if◌then◌else◌, ◌==◌}

-- The element goes before the first one that it is less than.
unfoldable pub list_insert_ordered : (ℕ → ℕ → Bool) → ℕ → List ℕ → List ℕ
list_insert_ordered less elem [] = elem ∷ []
list_insert_ordered less elem (e ∷ es) =
    if less elem e then elem ∷ e ∷ es else e ∷ list_insert_ordered less elem es

unfoldable pub list_push_back : List ℕ → ℕ → List ℕ
list_push_back l elem = l ++ elem ∷ []

-- `none` is the ASSERT that the list is not empty.
unfoldable pub list_pop_front : List ℕ → Option (ℕ × List ℕ)
list_pop_front [] = none
list_pop_front (e ∷ es) = some (e, es)

-- The element, which is in the list once, is unlinked.
unfoldable pub list_remove : ℕ → List ℕ → List ℕ
list_remove elem [] = []
list_remove elem (e ∷ es) = if e == elem then es else e ∷ list_remove elem es
