-- ===== src/Klib/Hash/Placing.antt =====
-- Every element is in the bucket that its hash value says, and only there can it be found.
use project2_group.Base.{
  ℕ, zero, suc, ◌+◌, ◌-◌, ◌<◌, ◌≡◌, ◌≢◌, refl, sym, ap, ◌∙◌, subst, inl, inr, Bool, List, [], ◌∷◌,
  ◌==◌, arith, Bool-cases, get_or, set, replicate, bit_and,
}
use project2_group.Klib.OrderedList.{list_remove}
use project2_group.Klib.Hash.{same, find_elem, bucket_idx, push_bucket, move_bucket, move_buckets}
use project2_group.Klib.Hash.Elements.{concat}
use project2_group.Klib.Hash.Finding.{
  IsKey, Apart, find-append_none, find-append_left, Apart-append,
}

module _ (hash : ℕ → ℕ) (n : ℕ) where
  -- The elements of bucket `i`, and the buckets from `i` on.
  abbrev pub Belong : ℕ → List ℕ → Type 0
  Belong i [] = Unit {0}
  Belong i (x ∷ xs) = (bucket_idx hash n x ≡ i) × Belong i xs

  abbrev pub Placed : ℕ → List (List ℕ) → Type 0
  Placed i [] = Unit {0}
  Placed i (b ∷ bs) = Belong i b × Placed (suc i) bs

  Belong-at : (i j : ℕ) (b : List ℕ) → i ≡ j → Belong i b → Belong j b
  Belong-at i j b e h = subst (λ k. Belong k b) e h

  get-Belong : (i j : ℕ) (bs : List (List ℕ)) → Placed i bs → Belong (i + j) (get_or bs j [])
  get-Belong i j [] p = tt
  get-Belong i zero (b ∷ bs) p = Belong-at i (i + 0) b (omega arith) p.0
  get-Belong i (suc j) (b ∷ bs) p =
      Belong-at (suc i + j) (i + suc j) (get_or bs j []) (omega arith) (get-Belong (suc i) j bs p.1)

  set-Placed :
      (i j : ℕ) (bs : List (List ℕ)) (b : List ℕ)
      → Belong (i + j) b
      → Placed i bs
      → Placed i (set bs j b)
  set-Placed i j [] b h p = tt
  set-Placed i zero (c ∷ bs) b h p = (Belong-at (i + 0) i b (omega arith) h, p.1)
  set-Placed i (suc j) (c ∷ bs) b h p =
      (p.0, set-Placed (suc i) j bs b (Belong-at (i + suc j) (suc i + j) b (omega arith) h) p.1)

  pub push-Placed :
      (bs : List (List ℕ)) (e : ℕ) → Placed 0 bs → Placed 0 (push_bucket bs (bucket_idx hash n e) e)
  push-Placed bs e p =
      set-Placed 0 (bucket_idx hash n e) bs _ (omega arith, get-Belong 0 (bucket_idx hash n e) bs p)
        p

  Belong-list_remove : (i x : ℕ) (b : List ℕ) → Belong i b → Belong i (list_remove x b)
  unfolding list_remove
  Belong-list_remove i x [] h = tt
  Belong-list_remove i x (y ∷ b) h = elim (Bool-cases (y == x)) [
    | inl e ↦ rw e h.1
    | inr e ↦ rw e (h.0, Belong-list_remove i x b h.1)
  ]

  pub remove-Placed :
      (bs : List (List ℕ)) (i x : ℕ)
      → Placed 0 bs
      → Placed 0 (set bs i (list_remove x (get_or bs i [])))
  remove-Placed bs i x p =
      set-Placed 0 i bs _ (Belong-list_remove (0 + i) x (get_or bs i []) (get-Belong 0 i bs p)) p

  move_bucket-Placed :
      (es : List ℕ) (bs : List (List ℕ)) → Placed 0 bs → Placed 0 (move_bucket hash n es bs)
  unfolding move_bucket
  move_bucket-Placed [] bs p = p
  move_bucket-Placed (e ∷ es) bs p = move_bucket-Placed es _ (push-Placed bs e p)

  pub move_buckets-Placed :
      (olds bs : List (List ℕ)) → Placed 0 bs → Placed 0 (move_buckets hash n olds bs)
  unfolding move_buckets
  move_buckets-Placed [] bs p = p
  move_buckets-Placed (old ∷ olds) bs p = move_buckets-Placed olds _ (move_bucket-Placed old bs p)

  pub empty-Placed : (i m : ℕ) → Placed i (replicate m [])
  empty-Placed i zero = tt
  empty-Placed i (suc m) = (tt, empty-Placed (suc i) m)

module _ (hash : ℕ → ℕ) (less : ℕ → ℕ → Bool) (key : IsKey hash less) (n e : ℕ) where
  other_bucket : (i : ℕ) (b : List ℕ) → bucket_idx hash n e ≢ i → Belong hash n i b → Apart less e b
  other_bucket i [] d h = tt
  other_bucket i (x ∷ b) d h = elim (Bool-cases (same less x e)) [
    | inl s ↦ absurd (d (sym (ap (λ v. bit_and v (n - 1)) (key.respects x e s)) ∙ h.0))
    | inr s ↦ (s, other_bucket i b d h.1)
  ]

  behind :
      (i : ℕ) (bs : List (List ℕ))
      → bucket_idx hash n e < i
      → Placed hash n i bs
      → Apart less e (concat bs)
  behind i [] h p = tt
  behind i (b ∷ bs) h p =
      Apart-append less e b (concat bs) (other_bucket i b (λ d. omega (arith, d)) p.0)
        (behind (suc i) bs (omega arith) p.1)

  pub find-concat :
      (i j : ℕ) (bs : List (List ℕ))
      → Placed hash n i bs
      → bucket_idx hash n e ≡ i + j
      → find_elem less (get_or bs j []) e ≡ find_elem less (concat bs) e
  unfolding find_elem
  find-concat i j [] p d = refl
  find-concat i zero (b ∷ bs) p d =
      sym (find-append_left less b (concat bs) e (behind (suc i) bs (omega (arith, d)) p.1))
  find-concat i (suc j) (b ∷ bs) p d =
      find-concat (suc i) j bs p.1 (omega (arith, d))
      ∙ sym
          (find-append_none less b (concat bs) e (other_bucket i b (λ z. omega (arith, d, z)) p.0))
