-- ===== src/Clib/Move.antt =====
-- lib/string.c: `memmove`, on one object that both blocks lie in, by their offsets.
pub mod Overlap
mod Tests
use project2_group.Base.{
  ℕ, zero, suc, ◌+◌, List, Run, ok, ◌>>=◌, deref, ltb, get_elem?, if◌then◌else◌,
}
use project2_group.Clib.Text.{put}

-- The loop that starts at the blocks' first bytes.
unfoldable pub move_up : List ℕ → (dst src size : ℕ) → Run (List ℕ)
move_up object dst src zero = ok object
move_up object dst src (suc size) = do
  c ← deref (get_elem? object src)
  object' ← put object dst c
  move_up object' (dst + 1) (src + 1) size

-- The loop that starts at the blocks' last bytes.
unfoldable pub move_down : List ℕ → (dst src size : ℕ) → Run (List ℕ)
move_down object dst src zero = ok object
move_down object dst src (suc size) = do
  c ← deref (get_elem? object (src + size))
  object' ← put object (dst + size) c
  move_down object' dst src size

-- The pointer that is returned, which the loops have moved, and the object.
unfoldable pub memmove : List ℕ → (dst src size : ℕ) → Run (ℕ × List ℕ)
memmove object dst src size =
    if ltb dst src
    then (do object' ← move_up object dst src size; ok (dst + size, object'))
    else (do object' ← move_down object dst src size; ok (dst, object'))
