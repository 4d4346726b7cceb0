-- ===== src/Klib/Bitmap/View.antt =====
-- A bitmap of lib/kernel/bitmap.c seen from the outside: an array of bits. The single-bit
-- operations on the array of elements against that view.
use project2_group.Base.{
  ℕ, ◌+◌, ◌/◌, ◌%◌, ◌^◌, ◌<◌, bit_and, bit_or, bit_xor, ◌≡◌, refl, ap, ◌∙◌, inl, inr, Bool, true,
  false, not, ok, ◌==◌, ==_iff, if◌then◌else◌, length, get_or, set, length-set, get_elem?-eq-get_or,
  get_or-set_self, get_or-set_ne, bit_of, bit_of-or, bit_of-and, bit_of-xor, bit_of-pow,
  bit_of_complement, and-pow, pow_lt_word, arith, lt→ltb, Bool-cases,
}
use mathlib.Core.Bool.{xor}
use project2_group.Klib.Bitmap.{
  Bitmap, elem_cnt, complement, update_elem, bitmap_flip, bitmap_set, bitmap_test,
}

-- Bit `i`.
unfoldable pub bit : Bitmap → ℕ → Bool
bit b i = bit_of (get_or b.bits (i / 32) 0) (i % 32)

-- There is an element for each bit, and the number of elements is computed without overflow.
pub record IsValid (b : Bitmap) : Type 0 where
  pub elems : length b.bits ≡ elem_cnt b.bit_cnt
  pub small : b.bit_cnt + 31 < 2 ^ 32

-- The new element at the place of bit `i`.
pub edit : Bitmap → ℕ → (ℕ → ℕ) → Bitmap
edit b i f = record b { bits = set b.bits (i / 32) (f (get_or b.bits (i / 32) 0)) }

-- Bit `i` set to `v`.
pub put : Bitmap → ℕ → Bool → Bitmap
unfolding edit
put b i v =
    edit b i (λ w. if v then bit_or w (2 ^ (i % 32)) else bit_and w (complement (2 ^ (i % 32))))

pub bit_cnt-put : (b : Bitmap) (i : ℕ) (x : Bool) → (put b i x).bit_cnt ≡ b.bit_cnt
unfolding put edit
bit_cnt-put b i x = refl

same_place : (i j : ℕ) → i / 32 ≡ j / 32 → (i % 32 == j % 32) ≡ (i == j)
same_place i j h = ground arith

-- What `|= mask`, `&= ~mask` and `^= mask` do to each bit of an element.
mark_word : (w k l : ℕ) → bit_of (bit_or w (2 ^ k)) l ≡ (if k == l then true else bit_of w l)
mark_word w k l = ground (arith, bit_of-or l w (2 ^ k), bit_of-pow k l)

reset_word :
    (w k l : ℕ)
    → k < 32
    → l < 32
    → bit_of (bit_and w (complement (2 ^ k))) l ≡ (if k == l then false else bit_of w l)
reset_word w k l h h' = ground (
  arith,
  bit_of-and l w (complement (2 ^ k)),
  bit_of_complement 32 (2 ^ k) l (pow_lt_word k h) h',
  bit_of-pow k l,
)

flip_word :
    (w k l : ℕ) → bit_of (bit_xor w (2 ^ k)) l ≡ (if k == l then not (bit_of w l) else bit_of w l)
unfolding xor
flip_word w k l = ground (arith, bit_of-xor l w (2 ^ k), bit_of-pow k l)

module _ {b : Bitmap} (v : IsValid b) where
  in_array : {i : ℕ} → i < b.bit_cnt → i / 32 < length b.bits
  in_array h = omega arith

  pub edit-IsValid : (i : ℕ) (f : ℕ → ℕ) → IsValid (edit b i f)
  unfolding edit
  edit-IsValid i f = record { elems = length-set b.bits (i / 32) _ ∙ v.elems; small = v.small }

  edit-bit_other : (i j : ℕ) (f : ℕ → ℕ) → (i / 32 == j / 32) ≡ false → bit (edit b i f) j ≡ bit b j
  unfolding edit bit
  edit-bit_other i j f h =
      ap (λ w. bit_of w (j % 32)) (get_or-set_ne b.bits (i / 32) (j / 32) _ 0 (ground arith))

  edit-bit_same :
      (i j : ℕ) (f : ℕ → ℕ)
      → i < b.bit_cnt
      → (i / 32 == j / 32) ≡ true
      → bit (edit b i f) j ≡ bit_of (f (get_or b.bits (j / 32) 0)) (j % 32)
  unfolding edit bit
  edit-bit_same i j f h e =
      let e' : i / 32 ≡ j / 32 = (==_iff _ _).0 e in
      rw e' (
        ap (λ w. bit_of w (j % 32))
          (get_or-set_self b.bits (j / 32) _ 0 (omega (arith, in_array h))))

  -- An edit whose function maps bit `k` of a word by `g` and keeps the others.
  edit-bit :
      (i j : ℕ) (f : ℕ → ℕ) (g : Bool → Bool)
      → i < b.bit_cnt
      → ((w l : ℕ) → l < 32 → bit_of (f w) l ≡ (if i % 32 == l then g (bit_of w l) else bit_of w l))
      → bit (edit b i f) j ≡ (if i == j then g (bit b j) else bit b j)
  unfolding bit
  edit-bit i j f g h law = elim (Bool-cases (i / 32 == j / 32)) [
    | inl e ↦
        edit-bit_same i j f h e
        ∙ law (get_or b.bits (j / 32) 0) (j % 32) (omega arith)
        ∙ ap (λ t. if t then g (bit b j) else bit b j) (same_place i j ((==_iff _ _).0 e))
    | inr e ↦ edit-bit_other i j f e ∙ ground (arith, bit b j)
  ]

  -- Setting bit `i` sets it, and no other.
  pub put-bit :
      (i j : ℕ) (x : Bool) → i < b.bit_cnt → bit (put b i x) j ≡ (if i == j then x else bit b j)
  unfolding put
  put-bit i j true h = edit-bit i j _ (λ _. true) h (λ w l k. mark_word w (i % 32) l)
  put-bit i j false h =
      edit-bit i j _ (λ _. false) h (λ w l k. reset_word w (i % 32) l (omega arith) k)

  pub put-IsValid : (i : ℕ) (x : Bool) → IsValid (put b i x)
  unfolding put edit
  put-IsValid i x = record { elems = length-set b.bits (i / 32) _ ∙ v.elems; small = v.small }

  update_elem-ok : (i : ℕ) (f : ℕ → ℕ) → i < b.bit_cnt → update_elem b (i / 32) f ≡ ok (edit b i f)
  unfolding edit
  update_elem-ok i f h = rw (get_elem?-eq-get_or b.bits (i / 32) 0 (in_array h))

  -- In range, `bitmap_set` succeeds and sets the bit.
  pub bitmap_set-ok : (i : ℕ) (x : Bool) → i < b.bit_cnt → bitmap_set b i x ≡ ok (put b i x)
  unfolding bitmap_set put
  bitmap_set-ok i true h = rw (lt→ltb _ _ h) (update_elem-ok i _ h)
  bitmap_set-ok i false h = rw (lt→ltb _ _ h) (update_elem-ok i _ h)

  -- In range, `bitmap_test` returns the bit.
  pub bitmap_test-ok : (i : ℕ) → i < b.bit_cnt → bitmap_test b i ≡ ok (bit b i)
  unfolding bitmap_test bit
  bitmap_test-ok i h =
      rw
        (
          lt→ltb _ _ h,
          get_elem?-eq-get_or b.bits (i / 32) 0 (in_array h),
          and-pow (i % 32) (get_or b.bits (i / 32) 0),
        )
        (ground arith)

  -- On a valid bitmap and an index in range, `bitmap_flip` succeeds, inverts the bit of the index
  -- and no other, and leaves a valid bitmap of the same size.
  pub bitmap_flip_lem :
      (i : ℕ)
      → i < b.bit_cnt
      → (c : Bitmap) × (bitmap_flip b i ≡ ok c)
        × IsValid c
        × (c.bit_cnt ≡ b.bit_cnt)
        × ((j : ℕ) → bit c j ≡ (if i == j then not (bit b j) else bit b j))
  unfolding bitmap_flip edit
  bitmap_flip_lem i h = (
    edit b i (λ w. bit_xor w (2 ^ (i % 32))),
    update_elem-ok i _ h,
    edit-IsValid i (λ w. bit_xor w (2 ^ (i % 32))),
    refl,
    λ j. edit-bit i j _ not h (λ w l k. flip_word w (i % 32) l),
  )
