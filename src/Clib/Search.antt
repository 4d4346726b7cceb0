-- ===== src/Clib/Search.antt =====
-- lib/string.c: the searches for sets of characters and for strings, and `strlcat`, on the lists of bytes of
-- Clib/Text.
mod Tests
use project2_group.Base.{
  ℕ, zero, suc, ◌+◌, ◌-◌, Bool, true, false, Option, none, some, List, [], ◌∷◌, Run, ok, fault,
  ◌>>=◌, leb, ltb, ◌==◌, ◌&&◌, if◌then◌else◌, drop,
}
use project2_group.Filesys.Inode.{lesser}
use project2_group.Clib.Text.{
  Comparison, negative, equal, positive, further, memcpy, memcmp, strchr, strlen, put,
}

-- The test `strchr (set, c) != NULL`.
abbrev pub is_in : List ℕ → ℕ → Run Bool
is_in set c = do o ← strchr set c; ok (elim o [ none ↦ false | some i ↦ true ])

-- One more than the length that the rest of a loop counts.
abbrev pub longer : Run ℕ → Run ℕ
longer r = do n ← r; ok (n + 1)

unfoldable pub strcspn : List ℕ → List ℕ → Run ℕ
strcspn [] stop = fault
strcspn (s ∷ string) stop =
    let rest = longer (strcspn string stop) in
    if s == 0 then ok 0 else (do found ← is_in stop s; if found then ok 0 else rest)

unfoldable pub strspn : List ℕ → List ℕ → Run ℕ
strspn [] skip = fault
strspn (s ∷ string) skip =
    let rest = longer (strspn string skip) in
    if s == 0 then ok 0 else (do found ← is_in skip s; if found then rest else ok 0)

unfoldable pub strpbrk : List ℕ → List ℕ → Run (Option ℕ)
strpbrk [] stop = fault
strpbrk (s ∷ string) stop =
    let rest = further (strpbrk string stop) in
    if s == 0 then ok none else (do found ← is_in stop s; if found then ok (some 0) else rest)

-- The last place wins; the terminator itself is never found.
unfoldable pub strrchr : List ℕ → ℕ → Run (Option ℕ)
strrchr [] c = fault
strrchr (s ∷ string) c =
    let rest = further (strrchr string c) in
    if s == 0 then ok none else (do
      later ← rest
      elim later [ some i ↦ ok (some i) | none ↦ ok (if s == c then some 0 else none) ])

-- The loop of `strstr`, with `n` values of `i` left.
unfoldable pub strstr_loop : ℕ → List ℕ → List ℕ → ℕ → ℕ → Run (Option ℕ)
strstr_loop zero haystack needle needle_len i = ok none
strstr_loop (suc n) haystack needle needle_len i =
    let rest = strstr_loop n haystack needle needle_len (i + 1) in
    do c ← memcmp (drop i haystack) needle needle_len; elim c [ equal ↦ ok (some i) | _ ↦ rest ]

unfoldable pub strstr : List ℕ → List ℕ → Run (Option ℕ)
unfolding strstr_loop
strstr haystack needle = do
  haystack_len ← strlen haystack
  needle_len ← strlen needle
  if leb needle_len haystack_len
      then strstr_loop (haystack_len - needle_len + 1) haystack needle needle_len 0
      else ok none

-- `memcpy (dst + ofs, src, size)`.
unfoldable pub memcpy_at : ℕ → List ℕ → List ℕ → ℕ → Run (List ℕ)
memcpy_at zero dst src size = memcpy dst src size
memcpy_at (suc ofs) [] src size = fault
memcpy_at (suc ofs) (d ∷ dst) src size = do rest ← memcpy_at ofs dst src size; ok (d ∷ rest)

-- The length that is returned, and `dst`.
unfoldable pub strlcat : List ℕ → List ℕ → ℕ → Run (ℕ × List ℕ)
strlcat dst src size = do
  src_len ← strlen src
  dst_len ← strlen dst
  if ltb 0 size && ltb dst_len size
      then (do
        let copy_cnt = lesser src_len (size - dst_len - 1)
        dst' ← memcpy_at dst_len dst src copy_cnt
        dst'' ← put dst' (dst_len + copy_cnt) 0
        ok (src_len + dst_len, dst''))
      else ok (src_len + dst_len, dst)
