-- ===== src/Userprog/Descriptors/Using.antt =====
-- The table of open files: closing, and the descriptors that the calls take for open.
use project2_group.Base.{
  ℕ, suc, ◌+◌, ◌≤◌, ◌≡◌, refl, sym, ap, ◌∙◌, subst, inl, inr, arith, ◌⊎◌, true, Option, none, some,
  List, [], ◌∷◌, ◌++◌, Run, ok, ◌>>=◌, length, length-append, get_or, leb, ltb, replicate,
  get_elem?-at, set-at, append-append, Bool-cases, bind_then,
}
use mathlib.Core.Path.{ap₂}
use project2_group.Userprog.Descriptors.{
  pos, in_range, Files, Process, close, close_slot, close_from, close_files,
}
use project2_group.Userprog.Descriptors.Opening.{IsTable}

-- The open files, in the order of their descriptors.
abbrev pub open_files : List (Option ℕ) → List ℕ
open_files [] = []
open_files (none ∷ slots) = open_files slots
open_files (some q ∷ slots) = q ∷ open_files slots

-- Descriptors 0 and 1 are the console's.
reserved :
    (slots : List (Option ℕ))
    → 2 ≤ length slots
    → get_or slots 0 none ≡ none
    → get_or slots 1 none ≡ none
    → (xs : List (Option ℕ)) × (slots ≡ none ∷ none ∷ xs)
reserved [] l h k = absurd (omega arith)
reserved (a ∷ []) l h k = absurd (omega arith)
reserved (a ∷ b ∷ xs) l h k = (xs, ap₂ (λ c d. c ∷ d ∷ xs) h k)

module _ {S : Type 0} (f : Files S) where
  -- `file_close` of one after another.
  abbrev pub file_close_all : List ℕ → S → Run S
  file_close_all [] s = ok s
  file_close_all (q ∷ qs) s = f.file_close q s >>= file_close_all qs

  abbrev process : ℕ → List (Option ℕ) → S → Process S
  process k slots s = record { fd_index = k; file_pointers = slots; sema_files = 1; system = s }

  close-closed :
      (k : ℕ) (pre xs : List (Option ℕ)) (s : S)
      → close f (pos (length pre)) (process k (pre ++ none ∷ xs) s)
        ≡ ok (process k (pre ++ none ∷ xs) s)
  unfolding close close_slot
  close-closed k pre xs s = elim (Bool-cases (in_range 2 (pos (length pre)) k)) [
    | inl r ↦ rw (r, get_elem?-at pre xs none) refl
    | inr r ↦ rw r refl
  ]

  close-open :
      (k q : ℕ) (pre xs : List (Option ℕ)) (s : S)
      → 2 ≤ length pre
      → length pre ≤ k
      → close f (pos (length pre)) (process k (pre ++ some q ∷ xs) s)
        ≡ (f.file_close q s >>= λ s'. ok (process k (pre ++ none ∷ xs) s'))
  unfolding close close_slot
  close-open k q pre xs s h l =
      let r : in_range 2 (pos (length pre)) k ≡ true = ground arith in
      let n = length-append pre (some q ∷ xs) in
      let b : ltb (length pre) (length (pre ++ some q ∷ xs)) ≡ true = ground arith in
      rw (r, get_elem?-at pre xs (some q))
        (bind_then (f.file_close q s) _ _ _ (λ s'. rw (b, set-at pre xs (some q) none) refl))

  -- The slots behind `pre` up to the end of the table, whose first `k` descriptors may be in use.
  abbrev Unused : ℕ → ℕ → List (Option ℕ) → Type 0
  Unused k counter [] = Unit {0}
  Unused k counter (x ∷ xs) = ((x ≡ none) ⊎ (counter ≤ k)) × Unused k (counter + 1) xs

  -- The loop over the slots `xs` behind `pre`, which it leaves empty.
  abbrev Closes : ℕ → List (Option ℕ) → List (Option ℕ) → S → Type 0
  Closes k xs pre s = close_from f (length xs) (length pre) (process k (pre ++ xs) s) ≡ (
      file_close_all (open_files xs) s >>= λ s'.
      ok (process k (pre ++ replicate (length xs) none) s'))

  next_slot :
      (k : ℕ) (xs pre : List (Option ℕ)) (s : S)
      → Closes k xs (pre ++ none ∷ []) s
      → close_from f (length xs) (length pre + 1) (process k (pre ++ none ∷ xs) s) ≡ (
          file_close_all (open_files xs) s >>= λ s'.
          ok (process k (pre ++ none ∷ replicate (length xs) none) s'))
  next_slot k xs pre s ih =
      let l : length (pre ++ none ∷ []) ≡ length pre + 1 = length-append pre (none ∷ []) in
      let join : (ys : List (Option ℕ)) → (pre ++ none ∷ []) ++ ys ≡ pre ++ none ∷ ys =
        λ ys. append-append pre (none ∷ []) ys in
      rw (sym l, sym (join xs), sym (join (replicate (length xs) none))) ih

  close_from_lem :
      (k : ℕ) (xs pre : List (Option ℕ)) (s : S)
      → 2 ≤ length pre
      → Unused k (length pre) xs
      → Closes k xs pre s
  unfolding close_from
  close_from_lem k [] pre s h u = refl
  close_from_lem k (none ∷ xs) pre s h (x, u) =
      let l : length (pre ++ none ∷ []) ≡ length pre + 1 = length-append pre (none ∷ []) in
      let u' = subst (λ c. Unused k c xs) (sym l) u in
      rw (close-closed k pre xs s)
        (next_slot k xs pre s (close_from_lem k xs (pre ++ none ∷ []) s (omega arith) u'))
  close_from_lem k (some q ∷ xs) pre s h (x, u) =
      let l : length (pre ++ none ∷ []) ≡ length pre + 1 = length-append pre (none ∷ []) in
      let u' = subst (λ c. Unused k c xs) (sym l) u in
      let below : length pre ≤ k = elim x [ inl e ↦ absurd (cc) | inr r ↦ r ] in
      let last = λ (s' : S). ok (process k (pre ++ none ∷ replicate (length xs) none) s') in
      let rest = λ (s' : S). file_close_all (open_files xs) s' >>= last in
      rw (close-open k q pre xs s h below) (
        bind_then (f.file_close q s) (λ s'. ok (process k (pre ++ none ∷ xs) s'))
          (close_from f (length xs) (length pre + 1)) rest
          (λ s'. next_slot k xs pre s' (close_from_lem k xs (pre ++ none ∷ []) s' (omega arith) u'))
        ∙ sym
            (bind_then (f.file_close q s) (file_close_all (open_files xs)) last rest (λ s'. refl)))

  slots_left :
      (k counter : ℕ) (xs : List (Option ℕ))
      → ((j : ℕ) → k ≤ counter + j → get_or xs j none ≡ none)
      → Unused k counter xs
  slots_left k counter [] h = tt
  slots_left k counter (x ∷ xs) h =
      let here : (x ≡ none) ⊎ (counter ≤ k) = elim (Bool-cases (leb k counter)) [
        | inl l ↦ (let below : k ≤ counter + 0 = ground arith in inl (h 0 below))
        | inr n ↦ inr (ground arith)
      ] in
      (here, slots_left k (counter + 1) xs (λ j l. h (suc j) (omega arith)))

  all_closed :
      (k : ℕ) (xs : List (Option ℕ)) (s : S)
      → length xs ≡ 128
      → Unused k 2 xs
      → close_files f (process k (none ∷ none ∷ xs) s)
        ≡ (file_close_all (open_files xs) s >>= λ s'. ok (process k (replicate 130 none) s'))
  unfolding close_files
  all_closed k xs s l u =
      subst
        (λ n. close_from f n 2 (process k (none ∷ none ∷ xs) s) ≡ (
          file_close_all (open_files xs) s >>= λ s'.
          ok (process k (none ∷ none ∷ replicate n none) s')))
        l (close_from_lem k xs (none ∷ none ∷ []) s (omega arith) u)

  ClosesAll : Process S → Type 0
  ClosesAll p = close_files f p ≡ (
      file_close_all (open_files p.file_pointers) p.system >>= λ s.
      ok (record p { file_pointers = replicate 130 none; system = s }))

  -- `close_files` in a process whose descriptors in use lie between 2 and `fd_index`: it does what `file_close` of
  -- the open files does, one after another in the order of their descriptors, fails where that fails, and otherwise
  -- leaves every descriptor closed, `sema_files` free and `fd_index` as it was.
  pub close_files_lem :
      (p : Process S)
      → IsTable p
      → close_files f p ≡ (
          file_close_all (open_files p.file_pointers) p.system >>= λ s.
          ok (record p { file_pointers = replicate 130 none; system = s }))
  unfolding ClosesAll
  close_files_lem p t =
      let (xs, e) =
        reserved p.file_pointers (omega (arith, t.size)) (t.low 0 (omega arith))
          (t.low 1 (omega arith)) in
      let l = ap length e in
      let size = t.size in
      let u : Unused p.fd_index 2 xs = slots_left p.fd_index 2 xs (λ j h.
        subst (λ slots. get_or slots (suc (suc j)) none ≡ none) e
          (t.unused (suc (suc j)) (omega arith))) in
      let same : p ≡ process p.fd_index (none ∷ none ∷ xs) p.system = λ i. record {
        fd_index = p.fd_index;
        file_pointers = e i;
        sema_files = t.free i;
        system = p.system;
      } in
      subst ClosesAll (sym same) (all_closed p.fd_index xs p.system (omega arith) u)
