-- ===== src/Clib/Move/Overlap.antt =====
-- Moving a block moves its bytes, also onto itself.
use project2_group.Base.{
  ℕ, zero, suc, ◌+◌, ◌≤◌, ◌<◌, ◌≡◌, ◌≢◌, ◌⊎◌, refl, ◌∙◌, inl, inr, arith, List, [], ◌∷◌, Run, ok,
  length, length-set, get_or, get_or-set_self, get_or-set_ne, get_elem?-eq-get_or, set, ltb,
  if◌then◌else◌, Bool-cases,
}
use project2_group.Clib.Text.{put}
use project2_group.Clib.Move.{move_up, move_down, memmove}

put-set : (xs : List ℕ) (i c : ℕ) → i < length xs → put xs i c ≡ ok (set xs i c)
unfolding put
put-set [] i c h = absurd (omega arith)
put-set (x ∷ xs) zero c h = refl
put-set (x ∷ xs) (suc i) c h = rw (put-set xs i c (omega arith)) refl

-- The block at `dst` holds what the one at `src` held, and nothing else has changed.
pub record IsMoved (xs ys : List ℕ) (dst src size : ℕ) : Type 0 where
  pub same_length : length ys ≡ length xs
  pub inside : (k : ℕ) → k < size → get_or ys (dst + k) 0 ≡ get_or xs (src + k) 0
  pub outside : (j : ℕ) → (j < dst) ⊎ (dst + size ≤ j) → get_or ys j 0 ≡ get_or xs j 0

abbrev Moves : Run (List ℕ) → List ℕ → ℕ → ℕ → ℕ → Type 0
Moves r xs dst src size = (ys : List ℕ) × (r ≡ ok ys) × IsMoved xs ys dst src size

-- The first byte, and then the rest.
after_first :
    (xs ys : List ℕ) (dst src size : ℕ)
    → dst ≤ src
    → dst < length xs
    → IsMoved (set xs dst (get_or xs src 0)) ys (dst + 1) (src + 1) size
    → IsMoved xs ys dst src (suc size)
after_first xs ys dst src size h l m =
    let c = get_or xs src 0 in
    record {
      same_length = m.same_length ∙ length-set xs dst c;
      inside = within;
      outside = λ j o. m.outside j (wider j o) ∙ get_or-set_ne xs dst j c 0 (apart j o);
    }
  where
    wider : (j : ℕ) → (j < dst) ⊎ (dst + suc size ≤ j) → (j < dst + 1) ⊎ (dst + 1 + size ≤ j)
    wider j (inl a) = inl (omega arith)
    wider j (inr b) = inr (omega arith)

    apart : (j : ℕ) → (j < dst) ⊎ (dst + suc size ≤ j) → dst ≢ j
    apart j (inl a) = λ e. omega arith
    apart j (inr b) = λ e. omega arith

    within : (k : ℕ) → k < suc size → get_or ys (dst + k) 0 ≡ get_or xs (src + k) 0
    within zero e =
        let here : dst + 0 ≡ dst = omega arith in
        let there : src + 0 ≡ src = omega arith in
        rw (here, there)
          (m.outside dst (inl (omega arith))
            ∙ get_or-set_self xs dst (get_or xs src 0) 0 (omega (arith, l)))
    within (suc k) e =
        let here : dst + suc k ≡ dst + 1 + k = omega arith in
        let there : src + suc k ≡ src + 1 + k = omega arith in
        rw (here, there)
          (m.inside k (omega arith)
            ∙ get_or-set_ne xs dst (src + 1 + k) (get_or xs src 0) 0 (λ d. omega (arith, h)))

-- The last byte, and then the rest.
after_last :
    (xs ys : List ℕ) (dst src size : ℕ)
    → src ≤ dst
    → dst + size < length xs
    → IsMoved (set xs (dst + size) (get_or xs (src + size) 0)) ys dst src size
    → IsMoved xs ys dst src (suc size)
after_last xs ys dst src size h l m =
    let c = get_or xs (src + size) 0 in
    record {
      same_length = m.same_length ∙ length-set xs (dst + size) c;
      inside = within;
      outside = λ j o. m.outside j (wider j o) ∙ get_or-set_ne xs (dst + size) j c 0 (apart j o);
    }
  where
    wider : (j : ℕ) → (j < dst) ⊎ (dst + suc size ≤ j) → (j < dst) ⊎ (dst + size ≤ j)
    wider j (inl a) = inl a
    wider j (inr b) = inr (omega arith)

    apart : (j : ℕ) → (j < dst) ⊎ (dst + suc size ≤ j) → dst + size ≢ j
    apart j (inl a) = λ e. omega arith
    apart j (inr b) = λ e. omega arith

    within : (k : ℕ) → k < suc size → get_or ys (dst + k) 0 ≡ get_or xs (src + k) 0
    within k e = elim (Bool-cases (ltb k size)) [
      | inl b ↦
          (let below : k < size = ground arith in
            m.inside k below
            ∙ get_or-set_ne xs (dst + size) (src + k) (get_or xs (src + size) 0) 0
                (λ d. omega (arith, h)))
      | inr b ↦
          (let last : k ≡ size = ground arith in
            rw last (
              m.outside (dst + size) (inr (omega arith))
              ∙ get_or-set_self xs (dst + size) (get_or xs (src + size) 0) 0 l))
    ]

move_up_lem :
    (size dst src : ℕ) (xs : List ℕ)
    → dst ≤ src
    → src + size ≤ length xs
    → Moves (move_up xs dst src size) xs dst src size
unfolding move_up
move_up_lem zero dst src xs h l = (
  xs,
  refl,
  record { same_length = refl; inside = λ k e. absurd (omega arith); outside = λ j o. refl },
)
move_up_lem (suc size) dst src xs h l =
    let c = get_or xs src 0 in
    let n = length-set xs dst c in
    let rest = move_up_lem size (dst + 1) (src + 1) (set xs dst c) (omega arith) (omega arith) in
    let g = get_elem?-eq-get_or xs src 0 (omega arith) in
    let p = put-set xs dst c (omega arith) in
    (rest.0, rw (g, p) rest.1, after_first xs rest.0 dst src size h (omega arith) rest.2)

move_down_lem :
    (size dst src : ℕ) (xs : List ℕ)
    → src ≤ dst
    → dst + size ≤ length xs
    → Moves (move_down xs dst src size) xs dst src size
unfolding move_down
move_down_lem zero dst src xs h l = (
  xs,
  refl,
  record { same_length = refl; inside = λ k e. absurd (omega arith); outside = λ j o. refl },
)
move_down_lem (suc size) dst src xs h l =
    let c = get_or xs (src + size) 0 in
    let n = length-set xs (dst + size) c in
    let rest = move_down_lem size dst src (set xs (dst + size) c) h (omega arith) in
    let g = get_elem?-eq-get_or xs (src + size) 0 (omega arith) in
    let p = put-set xs (dst + size) c (omega arith) in
    (rest.0, rw (g, p) rest.1, after_last xs rest.0 dst src size h (omega arith) rest.2)

-- For two blocks of the same size in an object, which may overlap: `memmove` succeeds, the block at `dst` then holds
-- what the one at `src` held, and nothing else has changed; the pointer returned is `dst` if `dst` does not lie before
-- `src`, and the end of the block at `dst` if it does.
pub memmove_lem :
    (object : List ℕ) (dst src size : ℕ)
    → dst + size ≤ length object
    → src + size ≤ length object
    → (object' : List ℕ) × (memmove object dst src size
        ≡ ok ((if ltb dst src then dst + size else dst), object'))
      × IsMoved object object' dst src size
unfolding memmove
memmove_lem object dst src size h l = elim (Bool-cases (ltb dst src)) [
  | inl b ↦
      (let r = move_up_lem size dst src object (ground arith) l in (r.0, rw (b, r.1) refl, r.2))
  | inr b ↦
      (let r = move_down_lem size dst src object (ground arith) h in (r.0, rw (b, r.1) refl, r.2))
]
