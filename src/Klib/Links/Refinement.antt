-- ===== src/Klib/Links/Refinement.antt =====
-- Runs of calls on a list in memory and on its sequence of elements.
use project2_group.Base.{
  ℕ, ◌≡◌, ◌≢◌, ◌<◌, Bool, refl, sym, subst, List, [], ◌∷◌, ◌++◌, Option, none, some, Run, ok, ◌>>=◌,
}
use project2_group.Klib.OrderedList
use project2_group.Klib.Sequence
use project2_group.Klib.Links.{
  Memory, Ends, list_remove, list_push_front, list_push_back, list_pop_front, list_pop_back,
  list_insert_ordered,
}
use project2_group.Klib.Links.Chain.{Absent}
use project2_group.Klib.Links.Lists.{addresses, IsList}
use project2_group.Klib.Links.Queue.{
  Answers, push_front-IsList, push_back-IsList, pop_front-IsList, pop_back-IsList, remove-IsList,
}
use project2_group.Klib.Links.Loops.{insert_ordered-IsList}

pub data Call : Type 0 where
  push_front : ℕ → Call
  push_back : ℕ → Call
  pop_front : Call
  pop_back : Call
  remove : ℕ → Call
  insert_ordered : ℕ → Call

module _ {A B : Type 0} where
  abbrev pub and_then : Option A → (A → Option B) → Option B
  and_then none k = none
  and_then (some a) k = k a

module _ (l : Ends) where
  -- Memory and sequence go on in step.
  Answers-then :
      {A B : Type 0} (r : Run (A × Memory)) (o : Option (A × List ℕ))
      (k : A × Memory → Run (B × Memory)) (k' : A × List ℕ → Option (B × List ℕ))
      → Answers l r o
      → ((a : A) (h : Memory) (es : List ℕ)
          → o ≡ some (a, es)
          → IsList h l es
          → Answers l (k (a, h)) (k' (a, es)))
      → Answers l (r >>= k) (and_then o k')
  Answers-then r none k k' a step = rw a refl
  Answers-then r (some (x, es)) k k' (h, e, w) step = rw e (step x h es refl w)

  Answers-return :
      {B : Type 0} (b : B) (h : Memory) (es : List ℕ)
      → IsList h l es
      → Answers l (ok (b, h)) (some (b, es))
  Answers-return b h es w = (h, refl, w)

-- The order of the list, and the fuel of the loop of `list_insert_ordered`.
module _ (less : ℕ → ℕ → Bool) (fuel : ℕ) where
  -- What a call returns, where it returns an element taken out, and the list behind it.
  abbrev pub call_links : Memory → Ends → Call → Run (Option ℕ × Memory)
  call_links h l (push_front e) = list_push_front h l e >>= λ h'. ok (none, h')
  call_links h l (push_back e) = list_push_back h l e >>= λ h'. ok (none, h')
  call_links h l pop_front = list_pop_front h l >>= λ r. ok (some r.0, r.1)
  call_links h l pop_back = list_pop_back h l >>= λ r. ok (some r.0, r.1)
  call_links h l (insert_ordered e) = list_insert_ordered less fuel h l e >>= λ h'. ok (none, h')
  call_links h l (remove e) = list_remove h e >>= λ r. ok (none, r.1)

  abbrev pub call_sequence : List ℕ → Call → Option (Option ℕ × List ℕ)
  call_sequence es (push_front e) = some (none, Sequence.list_push_front es e)
  call_sequence es (push_back e) = some (none, OrderedList.list_push_back es e)
  call_sequence es pop_front = and_then (OrderedList.list_pop_front es) (λ r. some (some r.0, r.1))
  call_sequence es pop_back = and_then (Sequence.list_pop_back es) (λ r. some (some r.0, r.1))
  call_sequence es (insert_ordered e) = some (none, OrderedList.list_insert_ordered less e es)
  call_sequence es (remove e) = some (none, OrderedList.list_remove e es)

  unfoldable pub run_links : Memory → Ends → List Call → Run (List (Option ℕ) × Memory)
  run_links h l [] = ok ([], h)
  run_links h l (c ∷ cs) =
      call_links h l c >>= λ r. (run_links r.1 l cs >>= λ t. ok (r.0 ∷ t.0, t.1))

  unfoldable pub run_sequence : List ℕ → List Call → Option (List (Option ℕ) × List ℕ)
  run_sequence es [] = some ([], es)
  run_sequence es (c ∷ cs) =
      and_then (call_sequence es c)
        (λ r. and_then (run_sequence r.1 cs) (λ t. some (r.0 ∷ t.0, t.1)))

  -- An element that is put into the list is not null and not in the list yet, one that is taken out is in it;
  -- the fuel is more than the number of elements.
  abbrev pub Legal : Ends → List ℕ → Call → Type 0
  Legal l es (push_front e) = (e ≢ 0) × Absent e (addresses l es)
  Legal l es (push_back e) = (e ≢ 0) × Absent e (addresses l es)
  Legal l es (insert_ordered e) =
      (e ≢ 0) × Absent e (addresses l es) × (Sequence.list_size es < fuel)
  Legal l es pop_front = Unit {0}
  Legal l es pop_back = Unit {0}
  Legal l es (remove e) = (us : List ℕ) × (vs : List ℕ) × (es ≡ us ++ e ∷ vs)

  -- The same of every call of a run.
  abbrev pub IsLegal : Ends → List ℕ → List Call → Type 0
  IsLegal l es [] = Unit {0}
  IsLegal l es (c ∷ cs) =
      Legal l es c × (elim (call_sequence es c) [ none ↦ Unit {0} | some r ↦ IsLegal l r.1 cs ])

module _ (less : ℕ → ℕ → Bool) (fuel : ℕ) (l : Ends) where
  call_refines :
      (h : Memory) (es : List ℕ) (c : Call)
      → IsList h l es
      → Legal less fuel l es c
      → Answers l (call_links less fuel h l c) (call_sequence less fuel es c)
  call_refines h es (push_front e) w (d, a) =
      let (h', r, w') = push_front-IsList h l es e w d a in (h', rw r refl, w')
  call_refines h es (push_back e) w (d, a) =
      let (h', r, w') = push_back-IsList h l es e w d a in (h', rw r refl, w')
  call_refines h es (insert_ordered e) w (d, a, n) =
      let (h', r, w') = insert_ordered-IsList less h l es fuel e w d a n in (h', rw r refl, w')
  call_refines h es pop_front w t =
      Answers-then l (list_pop_front h l) (OrderedList.list_pop_front es) (λ r. ok (some r.0, r.1))
        (λ r. some (some r.0, r.1)) (pop_front-IsList h l es w)
        (λ a h' es' q w'. Answers-return l (some a) h' es' w')
  call_refines h es pop_back w t =
      Answers-then l (list_pop_back h l) (Sequence.list_pop_back es) (λ r. ok (some r.0, r.1))
        (λ r. some (some r.0, r.1)) (pop_back-IsList h l es w)
        (λ a h' es' q w'. Answers-return l (some a) h' es' w')
  call_refines h es (remove e) w (us, vs, q) =
      let (h', r, w') = remove-IsList h l us vs e (subst (IsList h l) q w) in
      (h', rw r refl, subst (λ xs. IsList h' l (OrderedList.list_remove e xs)) (sym q) w')

  -- On a list in memory with the elements `es`, for a run of calls that put in only elements that are not null
  -- and not in the list, and take out only elements of it, with more fuel than there are elements wherever
  -- one is inserted in order: the calls return in memory the elements that they return on the sequence
  -- `es`, and leave a list in memory with the elements that they leave of the sequence; and where the run
  -- on the sequence takes an element from an empty list, the run in memory ends at a failed ASSERT.
  pub run_links_refines :
      (h : Memory) (es : List ℕ) (cs : List Call)
      → IsList h l es
      → IsLegal less fuel l es cs
      → Answers l (run_links less fuel h l cs) (run_sequence less fuel es cs)
  unfolding run_links run_sequence
  run_links_refines h es [] w t = Answers-return l [] h es w
  run_links_refines h es (c ∷ cs) w (t, ts) =
      Answers-then l (call_links less fuel h l c) (call_sequence less fuel es c)
        (λ r. (run_links less fuel r.1 l cs >>= λ u. ok (r.0 ∷ u.0, u.1)))
        (λ r. and_then (run_sequence less fuel r.1 cs) (λ u. some (r.0 ∷ u.0, u.1)))
        (call_refines h es c w t)
        (λ a h' es' q w'.
          Answers-then l (run_links less fuel h' l cs) (run_sequence less fuel es' cs)
            (λ u. ok (a ∷ u.0, u.1)) (λ u. some (a ∷ u.0, u.1))
            (run_links_refines h' es' cs w'
              (subst (λ o. elim o [ none ↦ Unit {0} | some r ↦ IsLegal less fuel l r.1 cs ]) q ts))
            (λ b h'' es'' q' w''. Answers-return l (a ∷ b) h'' es'' w''))
