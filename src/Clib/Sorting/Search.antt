-- ===== src/Clib/Sorting/Search.antt =====
-- `binary_search` finds.
use project2_group.Base.{
  ℕ, zero, suc, ◌+◌, ◌-◌, ◌/◌, ◌≤◌, ◌<◌, ◌≡◌, ◌≢◌, refl, sym, inl, inr, ◌⊎◌, false, Option, none,
  some, List, ok, ltb, arith, length, get_or, get_elem?-eq-get_or, Bool-cases,
}
use project2_group.Clib.Text.{Comparison, negative, equal, positive}
use project2_group.Clib.Sorting.{search_loop, binary_search}
use project2_group.Clib.Sorting.Heapify.{IsRanked}

module _ (rank : ℕ → ℕ) where
  abbrev pub rank_at : List ℕ → ℕ → ℕ
  rank_at a k = rank (get_or a k 0)

  abbrev pub IsOrdered : ℕ → List ℕ → Type 0
  IsOrdered cnt a = (i j : ℕ) → i ≤ j → j < cnt → rank_at a i ≤ rank_at a j

  -- The index of an element of the key's rank, or none if no element of the first `cnt` has it.
  abbrev pub IsMatch : ℕ → ℕ → List ℕ → Option ℕ → Type 0
  IsMatch key cnt a none = (k : ℕ) → k < cnt → rank_at a k ≢ rank key
  IsMatch key cnt a (some m) = (m < cnt) × (rank_at a m ≡ rank key)

module _ (compare : ℕ → ℕ → Comparison) (rank : ℕ → ℕ) (ranked : IsRanked compare rank) where
  -- The three answers of a comparison, by ranks.
  by_rank :
      (a b : ℕ)
      → ((compare a b ≡ negative) × (rank a < rank b))
        ⊎ ((compare a b ≡ positive) × (rank b < rank a))
        ⊎ ((compare a b ≡ equal) × (rank a ≡ rank b))
  by_rank a b = answer (compare a b) refl
    where
      answer :
          (c : Comparison)
          → compare a b ≡ c
          → ((compare a b ≡ negative) × (rank a < rank b))
            ⊎ ((compare a b ≡ positive) × (rank b < rank a))
            ⊎ ((compare a b ≡ equal) × (rank a ≡ rank b))
      answer negative e = inl (e, ground (arith, ranked.below a b, e))
      answer positive e = inr (inl (e, ground (arith, ranked.above a b, e)))
      answer equal e = inr (inr (e, ground (arith, ranked.above a b, ranked.below a b, e)))

  search_loop-ok :
      (fuel key cnt : ℕ) (a : List ℕ) (first last : ℕ)
      → last ≤ fuel + first
      → last ≤ cnt
      → cnt ≤ length a
      → IsOrdered rank cnt a
      → ((k : ℕ) → k < cnt → k < first → rank_at rank a k < rank key)
      → ((k : ℕ) → k < cnt → last ≤ k → rank key < rank_at rank a k)
      → (r : Option ℕ) × (search_loop compare fuel key a first last ≡ ok r)
        × IsMatch rank key cnt a r
  unfolding search_loop
  search_loop-ok zero key cnt a first last f l n o lo hi =
      let done : ltb first last ≡ false = ground arith in
      (none, rw done refl, λ k h z. ground (arith, lo k h, hi k h, z))
  search_loop-ok (suc fuel) key cnt a first last f l n o lo hi =
      elim (Bool-cases (ltb first last)) [
        | inr e ↦ (none, rw e refl, λ k h z. ground (arith, lo k h, hi k h, z))
        | inl e ↦
            let less : first < last = ground arith in
            let middle = first + (last - first) / 2 in
            let at = get_elem?-eq-get_or a middle 0 (omega (arith, less)) in
            elim (by_rank key (get_or a middle 0)) [
              | inl (c, b) ↦
                  let (r, q, m) =
                    search_loop-ok fuel key cnt a first middle (omega (arith, less))
                      (omega (arith, less)) n o lo (λ k h z. omega (arith, o middle k z h, b)) in
                  (r, rw (e, at, c) q, m)
              | inr (inl (c, b)) ↦
                  let (r, q, m) =
                    search_loop-ok fuel key cnt a (middle + 1) last (omega (arith, less)) l n o
                      (λ k h z. omega (arith, o k middle (omega arith) (omega (arith, less)), b))
                      hi in
                  (r, rw (e, at, c) q, m)
              | inr (inr (c, b)) ↦ (some middle, rw (e, at, c) refl, (omega (arith, less), sym b))
            ]
      ]

  -- For a comparison that orders elements by their ranks and an array whose first `cnt` elements are in that order:
  -- `binary_search` returns, with the index of an element that has the key's rank, or with a null pointer if
  -- none of the first `cnt` has it.
  pub binary_search_lem :
      (key cnt : ℕ) (a : List ℕ)
      → cnt ≤ length a
      → IsOrdered rank cnt a
      → (r : Option ℕ) × (binary_search compare key a cnt ≡ ok r) × IsMatch rank key cnt a r
  unfolding binary_search
  binary_search_lem key cnt a n o =
      search_loop-ok cnt key cnt a 0 cnt (omega arith) (omega arith) n o
        (λ k h z. absurd (omega arith)) (λ k h z. absurd (omega arith))
