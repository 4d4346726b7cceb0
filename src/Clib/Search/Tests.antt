-- ===== src/Clib/Search/Tests.antt =====
-- Runs of the searches and of `strlcat`.
use project2_group.Base.{◌≡◌, refl, none, some, [], ◌∷◌, ok}
use project2_group.Clib.Text.{memcmp, memcpy, strchr, strlen, put}
use project2_group.Clib.Search.{strcspn, strspn, strpbrk, strrchr, strstr, memcpy_at, strlcat}

strcspn_test : strcspn (1 ∷ 2 ∷ 3 ∷ 0 ∷ []) (3 ∷ 0 ∷ []) ≡ ok 2
unfolding strcspn strchr
strcspn_test = refl

strspn_test : strspn (1 ∷ 2 ∷ 3 ∷ 0 ∷ []) (2 ∷ 1 ∷ 0 ∷ []) ≡ ok 2
unfolding strspn strchr
strspn_test = refl

strpbrk_test : strpbrk (1 ∷ 2 ∷ 3 ∷ 0 ∷ []) (9 ∷ 0 ∷ []) ≡ ok none
unfolding strpbrk strchr
strpbrk_test = refl

strrchr_test : strrchr (1 ∷ 2 ∷ 1 ∷ 0 ∷ []) 1 ≡ ok (some 2)
unfolding strrchr
strrchr_test = refl

strstr_test : strstr (1 ∷ 2 ∷ 1 ∷ 3 ∷ 0 ∷ []) (1 ∷ 3 ∷ 0 ∷ []) ≡ ok (some 2)
unfolding strstr strlen memcmp
strstr_test = refl

strlcat_test : strlcat (1 ∷ 0 ∷ 7 ∷ 7 ∷ []) (2 ∷ 3 ∷ 4 ∷ 0 ∷ []) 4 ≡ ok (4, 1 ∷ 2 ∷ 3 ∷ 0 ∷ [])
unfolding strlcat strlen memcpy_at memcpy put
strlcat_test = refl
