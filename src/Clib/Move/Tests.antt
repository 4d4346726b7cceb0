-- ===== src/Clib/Move/Tests.antt =====
-- Blocks that overlap.
use project2_group.Base.{ℕ, ◌≡◌, refl, arith, List, [], ◌∷◌, ok}
use project2_group.Clib.Text.{put}
use project2_group.Clib.Move.{move_down, memmove}
use project2_group.Clib.Move.Overlap.{IsMoved, memmove_lem}

memmove_test : memmove (1 ∷ 2 ∷ 3 ∷ 4 ∷ []) 1 0 3 ≡ ok (1, 1 ∷ 1 ∷ 2 ∷ 3 ∷ [])
unfolding memmove move_down put
memmove_test = refl

memmove_lem_example :
    (object' : List ℕ) × (memmove (1 ∷ 2 ∷ 3 ∷ 4 ∷ []) 0 1 3 ≡ ok (3, object'))
    × IsMoved (1 ∷ 2 ∷ 3 ∷ 4 ∷ []) object' 0 1 3
memmove_lem_example = memmove_lem (1 ∷ 2 ∷ 3 ∷ 4 ∷ []) 0 1 3 (omega arith) (omega arith)
