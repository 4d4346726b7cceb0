-- ===== src/Base/Bytes.antt =====
-- Little-endian words in memory: an array of 32-bit words as the bytes that it occupies.
use Prim.Native.Nat.{ℕ, ◌+◌, ◌*◌, ◌/◌, ◌%◌, ◌^◌, ◌<◌}
use mathlib.Core.Path.{◌≡◌, refl, ap₂}
use mathlib.Core.List.{List, [], ◌∷◌}
use native.Mathlib.Omega.{arith}
use project2_group.Base.Lists.{length}

unfoldable pub bytes_of : List ℕ → List ℕ
bytes_of [] = []
bytes_of (w ∷ ws) =
    (w % 256) ∷ (w / 256 % 256) ∷ (w / 65536 % 256) ∷ (w / 16777216 % 256) ∷ bytes_of ws

unfoldable pub words_of : List ℕ → List ℕ
words_of (a ∷ b ∷ c ∷ d ∷ rest) = (a + 256 * b + 65536 * c + 16777216 * d) ∷ words_of rest
words_of _ = []

-- Every word fits in 32 bits.
abbrev pub AllWords : List ℕ → Type 0
AllWords [] = Unit {0}
AllWords (w ∷ ws) = (w < 2 ^ 32) × AllWords ws

pub words_of-bytes_of : (ws : List ℕ) → AllWords ws → words_of (bytes_of ws) ≡ ws
unfolding words_of bytes_of
words_of-bytes_of [] h = refl
words_of-bytes_of (w ∷ ws) h = ap₂ ◌∷◌ (omega arith) (words_of-bytes_of ws h.1)

pub length-bytes_of : (ws : List ℕ) → length (bytes_of ws) ≡ 4 * length ws
unfolding bytes_of
length-bytes_of [] = refl
length-bytes_of (w ∷ ws) = omega (arith, length-bytes_of ws)
