-- ===== src/Klib/Sequence/Tests.antt =====
-- Runs of the list functions.
use project2_group.Base.{◌≡◌, refl, some, [], ◌∷◌, ltb}
use project2_group.Klib.Sequence.{list_reverse, list_max, list_min, list_unique, list_pop_back}

reverse_test : list_reverse (1 ∷ 2 ∷ 3 ∷ []) ≡ 3 ∷ 2 ∷ 1 ∷ []
unfolding list_reverse
reverse_test = refl

max_test : list_max ltb (1 ∷ 3 ∷ 2 ∷ []) ≡ some 3
unfolding list_max
max_test = refl

min_test : list_min ltb (2 ∷ 1 ∷ 3 ∷ []) ≡ some 1
unfolding list_min
min_test = refl

unique_test : list_unique ltb (1 ∷ 1 ∷ 2 ∷ []) [] ≡ (1 ∷ 2 ∷ [], 1 ∷ [])
unfolding list_unique
unique_test = refl

pop_back_test : list_pop_back (1 ∷ 2 ∷ []) ≡ some (2, 1 ∷ [])
unfolding list_pop_back
pop_back_test = refl
