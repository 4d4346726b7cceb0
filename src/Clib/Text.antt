-- ===== src/Clib/Text.antt =====
-- lib/string.c. A pointer into an object is the list of the object's bytes from there on, so that a read
-- or a write past its end is a fault; the pointers are not null. Where C returns a pointer into an argument, the
-- result is the offset in it. The answers -1, 0 and 1 of comparisons are `Comparison`.
pub mod Copy
pub mod Compare
mod Tests
use project2_group.Base.{
  ℕ, zero, suc, ◌+◌, ◌-◌, Bool, true, false, Option, none, some, List, [], ◌∷◌, ◌++◌, ◌%◌, map, Run,
  ok, fault, ◌>>=◌, ltb, ◌==◌, ◌&&◌, if◌then◌else◌, take, drop,
}
use project2_group.Filesys.Inode.{lesser}

pub data Comparison : Type 0 where
  negative equal positive : Comparison

unfoldable pub memcpy : List ℕ → List ℕ → ℕ → Run (List ℕ)
memcpy dst src zero = ok dst
memcpy (d ∷ ds) (s ∷ ss) (suc size) = do rest ← memcpy ds ss size; ok (s ∷ rest)
memcpy _ _ (suc size) = fault

unfoldable pub memset : List ℕ → ℕ → ℕ → Run (List ℕ)
memset dst value zero = ok dst
memset (d ∷ ds) value (suc size) = do rest ← memset ds value size; ok (value % 256 ∷ rest)
memset [] value (suc size) = fault

unfoldable pub memcmp : List ℕ → List ℕ → ℕ → Run Comparison
memcmp a b zero = ok equal
memcmp (x ∷ a) (y ∷ b) (suc size) =
    let rest = memcmp a b size in
    if x == y then rest else ok (if ltb y x then positive else negative)
memcmp _ _ (suc size) = fault

unfoldable pub strcmp : List ℕ → List ℕ → Run Comparison
strcmp (x ∷ a) (y ∷ b) =
    let rest = strcmp a b in
    if x == 0
    then ok (if ltb x y then negative else if ltb y x then positive else equal)
    else if x == y
    then rest
    else ok (if ltb x y then negative else if ltb y x then positive else equal)
strcmp _ _ = fault

-- What a search found, one place further on.
abbrev pub further : Run (Option ℕ) → Run (Option ℕ)
further r = do o ← r; ok (elim o [ none ↦ none | some i ↦ some (i + 1) ])

unfoldable pub memchr : List ℕ → ℕ → ℕ → Run (Option ℕ)
memchr block ch zero = ok none
memchr (b ∷ block) ch (suc size) =
    let rest = further (memchr block ch size) in if b == ch then ok (some 0) else rest
memchr [] ch (suc size) = fault

unfoldable pub strchr : List ℕ → ℕ → Run (Option ℕ)
strchr [] c = fault
strchr (s ∷ string) c =
    let rest = further (strchr string c) in
    if s == c then ok (some 0) else if s == 0 then ok none else rest

unfoldable pub strlen : List ℕ → Run ℕ
strlen [] = fault
strlen (s ∷ string) = let rest = (do n ← strlen string; ok (n + 1)) in if s == 0 then ok 0 else rest

unfoldable pub strnlen : List ℕ → ℕ → Run ℕ
strnlen [] maxlen = fault
strnlen (s ∷ string) zero = ok 0
strnlen (s ∷ string) (suc maxlen) =
    let rest = (do n ← strnlen string maxlen; ok (n + 1)) in if s == 0 then ok 0 else rest

-- `dst[i] = c`.
unfoldable pub put : List ℕ → ℕ → ℕ → Run (List ℕ)
put [] i c = fault
put (d ∷ dst) zero c = ok (c ∷ dst)
put (d ∷ dst) (suc i) c = do rest ← put dst i c; ok (d ∷ rest)

-- The length that is returned, and `dst`.
unfoldable pub strlcpy : List ℕ → List ℕ → ℕ → Run (ℕ × List ℕ)
strlcpy dst src size = do
  src_len ← strlen src
  if ltb 0 size
      then (do
        let dst_len = lesser src_len (size - 1)
        dst' ← memcpy dst src dst_len
        dst'' ← put dst' dst_len 0
        ok (src_len, dst''))
      else ok (src_len, dst)
