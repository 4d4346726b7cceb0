-- ===== src/Clib/Text/Copy.antt =====
-- Lengths and bounded copies of terminated strings.
use project2_group.Base.{
  ℕ, zero, suc, ◌-◌, ◌≤◌, ◌<◌, ◌≡◌, ◌≢◌, refl, ap, ◌∙◌, subst, List, [], ◌∷◌, ◌++◌, ok, ltb,
  if◌then◌else◌, arith, length, take, drop, ne_test, lt→ltb, length-append, length-take,
  length-drop,
}
use project2_group.Filesys.Inode.{lesser}
use project2_group.Clib.Text.{memcpy, strlen, put, strlcpy}

-- No byte of the list is the terminator.
abbrev pub IsText : List ℕ → Type 0
IsText [] = Unit {0}
IsText (c ∷ cs) = (c ≢ 0) × IsText cs

pub strlen_lem : (s rest : List ℕ) → IsText s → strlen (s ++ 0 ∷ rest) ≡ ok (length s)
unfolding strlen
strlen_lem [] rest t = refl
strlen_lem (c ∷ s) rest (n, t) = rw (ne_test c 0 n, strlen_lem s rest t) (ap ok (omega arith))

pub IsText-take : (n : ℕ) (s : List ℕ) → IsText s → IsText (take n s)
IsText-take zero s t = tt
IsText-take (suc n) [] t = tt
IsText-take (suc n) (c ∷ s) (m, t) = (m, IsText-take n s t)

pub memcpy_lem :
    (n : ℕ) (dst src : List ℕ)
    → n ≤ length dst
    → n ≤ length src
    → memcpy dst src n ≡ ok (take n src ++ drop n dst)
unfolding memcpy
memcpy_lem zero dst src h k = refl
memcpy_lem (suc n) [] src h k = absurd (omega arith)
memcpy_lem (suc n) (d ∷ dst) [] h k = absurd (omega arith)
memcpy_lem (suc n) (d ∷ dst) (c ∷ src) h k =
    rw (memcpy_lem n dst src (omega arith) (omega arith)) refl

put_lem :
    (xs ys : List ℕ) (c : ℕ)
    → 0 < length ys
    → put (xs ++ ys) (length xs) c ≡ ok (xs ++ c ∷ drop 1 ys)
unfolding put
put_lem [] [] c h = absurd (omega arith)
put_lem [] (y ∷ ys) c h = refl
put_lem (x ∷ xs) ys c h = rw (put_lem xs ys c h) refl

pub take-append : (n : ℕ) (xs ys : List ℕ) → n ≤ length xs → take n (xs ++ ys) ≡ take n xs
take-append zero xs ys h = refl
take-append (suc n) [] ys h = absurd (omega arith)
take-append (suc n) (x ∷ xs) ys h = ap (◌∷◌ x) (take-append n xs ys (omega arith))

drop-drop : (n : ℕ) (xs : List ℕ) → drop 1 (drop n xs) ≡ drop (suc n) xs
drop-drop zero [] = refl
drop-drop zero (x ∷ xs) = refl
drop-drop (suc n) [] = refl
drop-drop (suc n) (x ∷ xs) = drop-drop n xs

length-prefix : (n : ℕ) (s : List ℕ) → n ≤ length s → length (take n s) ≡ n
length-prefix n s h = omega (arith, length-take n s, h)

copy :
    (n : ℕ) (dst s rest : List ℕ)
    → n ≤ length s
    → n < length dst
    → memcpy dst (s ++ 0 ∷ rest) n ≡ ok (take n s ++ drop n dst)
copy n dst s rest h k =
    memcpy_lem n dst (s ++ 0 ∷ rest) (omega (arith, k))
      (omega (arith, h, length-append s (0 ∷ rest)))
    ∙ ap (λ z. ok (z ++ drop n dst)) (take-append n s (0 ∷ rest) h)

terminate :
    (n : ℕ) (dst s : List ℕ)
    → n ≤ length s
    → n < length dst
    → put (take n s ++ drop n dst) n 0 ≡ ok (take n s ++ 0 ∷ drop (suc n) dst)
terminate n dst s h k =
    subst (λ m. put (take n s ++ drop n dst) m 0 ≡ ok (take n s ++ 0 ∷ drop 1 (drop n dst)))
      (length-prefix n s h)
      (put_lem (take n s) (drop n dst) 0 (omega (arith, k, length-drop n dst)))
    ∙ ap (λ z. ok (take n s ++ 0 ∷ z)) (drop-drop n dst)

-- For a terminated string and a destination of at least `size` bytes, `size` not 0: `strlcpy` returns the length
-- of the string; the destination then holds its first `size - 1` bytes, or all of it if it is shorter, a
-- terminator, and behind that the bytes it held before; and `strlen` of the destination is the number of bytes
-- copied.
pub strlcpy_lem :
    (dst s rest : List ℕ) (size : ℕ)
    → IsText s
    → 0 < size
    → size ≤ length dst
    → (n : ℕ) × (dst' : List ℕ) × (n ≡ (if ltb (length s) size then length s else size - 1))
      × (dst' ≡ take n s ++ 0 ∷ drop (suc n) dst)
      × (strlcpy dst (s ++ 0 ∷ rest) size ≡ ok (length s, dst'))
      × (strlen dst' ≡ ok n)
unfolding strlcpy
strlcpy_lem dst s rest size t pos h =
    let n = lesser (length s) (size - 1) in
    let fits : n ≤ length s = ground arith in
    let room : n < length dst = ground arith in
    (
      n,
      _,
      ground arith,
      refl,
      rw
          (
            strlen_lem s rest t,
            lt→ltb 0 size pos,
            copy n dst s rest fits room,
            terminate n dst s fits room,
          )
          refl,
      strlen_lem (take n s) _ (IsText-take n s t) ∙ ap ok (length-prefix n s fits),
    )
