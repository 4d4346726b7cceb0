-- ===== src/Klib/Hash/Elements.antt =====
-- The elements of the buckets in one list, and what moving an element between buckets does to it.
use project2_group.Base.{
  ℕ, zero, suc, ◌-◌, ◌<◌, ◌≡◌, refl, sym, ◌∙◌, inl, inr, ◌⊎◌, false, List, [], ◌∷◌, ◌++◌, ◌==◌,
  arith, Bool-cases, ==_iff, bool_clash, get_or, set, replicate, length, length-set, Shuffle, stay,
  skip, exchange, ◌▸◌, middle-Shuffle, blocks-Shuffle, append_left-Shuffle, append_right-Shuffle,
  Shuffle-sym,
}
use mathlib.Core.List.{append_assoc}
use project2_group.Klib.OrderedList.{list_remove}
use project2_group.Klib.Hash.{bucket_idx, push_bucket, move_bucket, move_buckets}
use project2_group.Klib.Hash.Size.{and_le_right}

abbrev pub concat : List (List ℕ) → List ℕ
concat [] = []
concat (b ∷ bs) = b ++ concat bs

pub concat-replicate : (n : ℕ) → concat (replicate n []) ≡ []
concat-replicate zero = refl
concat-replicate (suc n) = concat-replicate n

abbrev pub Mem : ℕ → List ℕ → Type 0
Mem x [] = ⊥
Mem x (y ∷ ys) = (x ≡ y) ⊎ Mem x ys

pub push-Shuffle :
    (bs : List (List ℕ)) (i e : ℕ)
    → i < length bs
    → Shuffle (concat (push_bucket bs i e)) (e ∷ concat bs)
push-Shuffle [] i e h = absurd (omega arith)
push-Shuffle (b ∷ bs) zero e h = stay _
push-Shuffle (b ∷ bs) (suc i) e h =
    append_left-Shuffle b (push-Shuffle bs i e (omega arith)) ▸ middle-Shuffle b e (concat bs)

list_remove-Shuffle : (x : ℕ) (b : List ℕ) → Mem x b → Shuffle (x ∷ list_remove x b) b
unfolding list_remove
list_remove-Shuffle x [] m = elim m [ ]
list_remove-Shuffle x (y ∷ b) m = elim (Bool-cases (y == x)) [
  | inl e ↦ rw (e, (==_iff y x).0 e) (stay _)
  | inr e ↦ rw e (exchange x y _ ▸ skip y _ _ (list_remove-Shuffle x b (rest m e)))
]
  where
    rest : Mem x (y ∷ b) → (y == x) ≡ false → Mem x b
    rest (inl p) n = bool_clash n ((==_iff y x).1 (sym p))
    rest (inr p) n = p

pub remove-Shuffle :
    (bs : List (List ℕ)) (i x : ℕ)
    → Mem x (get_or bs i [])
    → Shuffle (x ∷ concat (set bs i (list_remove x (get_or bs i [])))) (concat bs)
remove-Shuffle [] i x m = elim m [ ]
remove-Shuffle (b ∷ bs) zero x m = append_right-Shuffle (concat bs) (list_remove-Shuffle x b m)
remove-Shuffle (b ∷ bs) (suc i) x m =
    Shuffle-sym (middle-Shuffle b x _) ▸ append_left-Shuffle b (remove-Shuffle bs i x m)

module _ (hash : ℕ → ℕ) where
  pub bucket_idx-lt : (n e : ℕ) → 0 < n → bucket_idx hash n e < n
  bucket_idx-lt n e h = omega (arith, and_le_right n (hash e) (n - 1) (omega arith))

  pub length-move_bucket :
      (n : ℕ) (es : List ℕ) (bs : List (List ℕ)) → length (move_bucket hash n es bs) ≡ length bs
  unfolding move_bucket
  length-move_bucket n [] bs = refl
  length-move_bucket n (e ∷ es) bs = length-move_bucket n es _ ∙ length-set bs _ _

  pub length-move_buckets :
      (n : ℕ) (olds bs : List (List ℕ)) → length (move_buckets hash n olds bs) ≡ length bs
  unfolding move_buckets
  length-move_buckets n [] bs = refl
  length-move_buckets n (old ∷ olds) bs = length-move_buckets n olds _ ∙ length-move_bucket n old bs

  move_bucket-Shuffle :
      (n : ℕ) (es : List ℕ) (bs : List (List ℕ))
      → 0 < n
      → length bs ≡ n
      → Shuffle (concat (move_bucket hash n es bs)) (es ++ concat bs)
  unfolding move_bucket
  move_bucket-Shuffle n [] bs h l = stay _
  move_bucket-Shuffle n (e ∷ es) bs h l =
      let i = bucket_idx hash n e in
      move_bucket-Shuffle n es (push_bucket bs i e) h (length-set bs i _ ∙ l)
      ▸ append_left-Shuffle es (push-Shuffle bs i e (omega (arith, bucket_idx-lt n e h, l)))
      ▸ middle-Shuffle es e (concat bs)

  -- The new buckets hold what the old ones held.
  pub move_buckets-Shuffle :
      (n : ℕ) (olds bs : List (List ℕ))
      → 0 < n
      → length bs ≡ n
      → Shuffle (concat (move_buckets hash n olds bs)) (concat olds ++ concat bs)
  unfolding move_buckets
  move_buckets-Shuffle n [] bs h l = stay _
  move_buckets-Shuffle n (old ∷ olds) bs h l =
      move_buckets-Shuffle n olds (move_bucket hash n old bs) h (length-move_bucket n old bs ∙ l)
      ▸ append_left-Shuffle (concat olds) (move_bucket-Shuffle n old bs h l)
      ▸ rw (append_assoc old (concat olds) (concat bs))
          (blocks-Shuffle (concat olds) old (concat bs))
