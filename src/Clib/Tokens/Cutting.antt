-- ===== src/Clib/Tokens/Cutting.antt =====
-- One call of `strtok_r` in an object whose part before the offset is any.
use project2_group.Base.{
  ℕ, ◌+◌, ◌≡◌, ◌≢◌, refl, sym, ◌∙◌, inl, inr, arith, none, some, List, ◌∷◌, ◌++◌, ok, get_elem?,
  set, drop-at, get_elem?-at, set-at, append-append, length, length-append, replicate,
  length-replicate,
}
use project2_group.Clib.Tokens.{cut_token, strtok_r}
use project2_group.Clib.Tokens.Splitting.{
  space, IsWord, skip_delimiters-terminator, skip_delimiters-token, skip_token_lem,
}

length-spaces : (pre : List ℕ) (k : ℕ) → length (pre ++ replicate k 32) ≡ length pre + k
length-spaces pre k =
    let l : length (replicate {A = ℕ} k 32) ≡ k = length-replicate k 32 in
    omega (arith, length-append pre (replicate k 32))

-- Spaces up to the terminator: no token.
pub strtok_at_blank :
    (pre xs : List ℕ) (k : ℕ)
    → (n : ℕ) × (strtok_r space (pre ++ (replicate k 32 ++ 0 ∷ xs)) (length pre)
        ≡ ok (none, pre ++ (replicate k 32 ++ 0 ∷ xs), n))
unfolding strtok_r
strtok_at_blank pre xs k = (
  length pre + k,
  rw (drop-at pre (replicate k 32 ++ 0 ∷ xs), skip_delimiters-terminator k (length pre) xs) refl,
)

-- The token ends at a space, which is overwritten.
cut_token-space :
    (pre t xs : List ℕ)
    → IsWord t
    → cut_token space (pre ++ (t ++ 32 ∷ xs)) (length pre)
      ≡ ok (some (length pre), pre ++ (t ++ 0 ∷ xs), length pre + length t + 1)
unfolding cut_token
cut_token-space pre t xs w =
    let l = length-append pre t in
    let o = append-append pre t in
    let g : get_elem? (pre ++ (t ++ 32 ∷ xs)) (length pre + length t) ≡ some 32 =
      rw (sym (o (32 ∷ xs)), sym l) (get_elem?-at (pre ++ t) xs 32) in
    let s : set (pre ++ (t ++ 32 ∷ xs)) (length pre + length t) 0 ≡ pre ++ (t ++ 0 ∷ xs) =
      rw (sym (o (32 ∷ xs)), sym (o (0 ∷ xs)), sym l) (set-at (pre ++ t) xs 32 0) in
    rw (drop-at pre (t ++ 32 ∷ xs), skip_token_lem t 32 (length pre) xs w (inl refl), g, s) refl

-- The token ends at the terminator.
cut_token-terminator :
    (pre t xs : List ℕ)
    → IsWord t
    → cut_token space (pre ++ (t ++ 0 ∷ xs)) (length pre)
      ≡ ok (some (length pre), pre ++ (t ++ 0 ∷ xs), length pre + length t)
unfolding cut_token
cut_token-terminator pre t xs w =
    let l = length-append pre t in
    let o = append-append pre t in
    let g : get_elem? (pre ++ (t ++ 0 ∷ xs)) (length pre + length t) ≡ some 0 =
      rw (sym (o (0 ∷ xs)), sym l) (get_elem?-at (pre ++ t) xs 0) in
    rw (drop-at pre (t ++ 0 ∷ xs), skip_token_lem t 0 (length pre) xs w (inr refl), g) refl

-- Spaces before a token.
strtok_after_spaces :
    (pre t xs : List ℕ) (k c : ℕ)
    → c ≢ 32
    → c ≢ 0
    → strtok_r space (pre ++ (replicate k 32 ++ ((c ∷ t) ++ xs))) (length pre)
      ≡ cut_token space
          ((pre ++ replicate k 32) ++ ((c ∷ t) ++ xs))
          (length (pre ++ replicate k 32))
unfolding strtok_r
strtok_after_spaces pre t xs k c h n =
    let body = (c ∷ t) ++ xs in
    let b = append-append pre (replicate k 32) body in
    rw
      (
        drop-at pre (replicate k 32 ++ body),
        skip_delimiters-token k (length pre) c (t ++ xs) h n,
        length-spaces pre k,
        b,
      )
      refl

-- A token that ends at a space.
pub strtok_at_space :
    (pre t xs : List ℕ) (k c : ℕ)
    → IsWord (c ∷ t)
    → strtok_r space (pre ++ (replicate k 32 ++ ((c ∷ t) ++ 32 ∷ xs))) (length pre)
      ≡ ok (
        some (length (pre ++ replicate k 32)),
        (pre ++ replicate k 32) ++ ((c ∷ t) ++ 0 ∷ xs),
        length (pre ++ replicate k 32) + length (c ∷ t) + 1,
      )
strtok_at_space pre t xs k c w =
    strtok_after_spaces pre t (32 ∷ xs) k c w.0.0 w.0.1.0
    ∙ cut_token-space (pre ++ replicate k 32) (c ∷ t) xs w

-- A token that ends at the terminator.
pub strtok_at_end :
    (pre t xs : List ℕ) (k c : ℕ)
    → IsWord (c ∷ t)
    → strtok_r space (pre ++ (replicate k 32 ++ ((c ∷ t) ++ 0 ∷ xs))) (length pre)
      ≡ ok (
        some (length (pre ++ replicate k 32)),
        (pre ++ replicate k 32) ++ ((c ∷ t) ++ 0 ∷ xs),
        length (pre ++ replicate k 32) + length (c ∷ t),
      )
strtok_at_end pre t xs k c w =
    strtok_after_spaces pre t (0 ∷ xs) k c w.0.0 w.0.1.0
    ∙ cut_token-terminator (pre ++ replicate k 32) (c ∷ t) xs w
