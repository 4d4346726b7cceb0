-- ===== src/Clib/Text/Tests.antt =====
-- Runs of the string functions.
use project2_group.Base.{
  ℕ, ◌≡◌, ◌↔◌, refl, none, some, List, [], ◌∷◌, ◌++◌, ok, arith, take, drop, suc,
}
use project2_group.Clib.Text.{
  Comparison, equal, positive, memcmp, memset, memchr, strchr, strnlen, strlcpy, strlen, strcmp,
}
use project2_group.Clib.Text.Copy.{strlcpy_lem}
use project2_group.Clib.Text.Compare.{opposite, strcmp_lem}

memcmp_test : memcmp (1 ∷ 2 ∷ 9 ∷ []) (1 ∷ 2 ∷ 3 ∷ []) 3 ≡ ok positive
unfolding memcmp
memcmp_test = refl

memset_test : memset (1 ∷ 2 ∷ 9 ∷ []) 263 2 ≡ ok (7 ∷ 7 ∷ 9 ∷ [])
unfolding memset
memset_test = refl

memchr_test : memchr (1 ∷ 2 ∷ 9 ∷ []) 9 3 ≡ ok (some 2)
unfolding memchr
memchr_test = refl

strchr_test : strchr (1 ∷ 2 ∷ 0 ∷ 9 ∷ []) 9 ≡ ok none
unfolding strchr
strchr_test = refl

strnlen_test : strnlen (1 ∷ 2 ∷ 3 ∷ 0 ∷ []) 2 ≡ ok 2
unfolding strnlen
strnlen_test = refl

-- "Pintos" copied to four bytes.
strlcpy_lem_example :
    (n : ℕ) × (dst' : List ℕ) × (n ≡ 3)
    × (dst'
        ≡ take n (80 ∷ 105 ∷ 110 ∷ 116 ∷ 111 ∷ 115 ∷ [])
          ++ 0 ∷ drop (suc n) (1 ∷ 2 ∷ 3 ∷ 4 ∷ 5 ∷ []))
    × (strlcpy (1 ∷ 2 ∷ 3 ∷ 4 ∷ 5 ∷ []) (80 ∷ 105 ∷ 110 ∷ 116 ∷ 111 ∷ 115 ∷ 0 ∷ 7 ∷ []) 4
        ≡ ok (6, dst'))
    × (strlen dst' ≡ ok n)
strlcpy_lem_example =
    strlcpy_lem (1 ∷ 2 ∷ 3 ∷ 4 ∷ 5 ∷ []) (80 ∷ 105 ∷ 110 ∷ 116 ∷ 111 ∷ 115 ∷ []) (7 ∷ []) 4
      (
        (λ e. omega (arith, e)),
        (
          (λ e. omega (arith, e)),
          (
            (λ e. omega (arith, e)),
            ((λ e. omega (arith, e)), ((λ e. omega (arith, e)), ((λ e. omega (arith, e)), tt))),
          ),
        ),
      )
      (omega arith) (omega arith)

strcmp_lem_example :
    (c : Comparison) × (strcmp (65 ∷ 66 ∷ 0 ∷ []) (65 ∷ 0 ∷ 5 ∷ []) ≡ ok c)
    × (strcmp (65 ∷ 0 ∷ 5 ∷ []) (65 ∷ 66 ∷ 0 ∷ []) ≡ ok (opposite c))
    × ((c ≡ equal) ↔ (◌≡◌ {A = List ℕ} (65 ∷ 66 ∷ []) (65 ∷ [])))
strcmp_lem_example =
    strcmp_lem (65 ∷ 66 ∷ []) (65 ∷ []) [] (5 ∷ [])
      ((λ e. omega (arith, e)), ((λ e. omega (arith, e)), tt)) ((λ e. omega (arith, e)), tt)
