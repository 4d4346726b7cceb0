-- ===== src/Userprog/Descriptors/Refinement.antt =====
-- The calls of a program on files do what the map from descriptors to files promises.
use project2_group.Base.{
  ℕ, ◌≡◌, refl, sym, Option, none, some, List, [], ◌∷◌, Run, ok, panic, fault, out_of_fuel, ◌>>=◌,
}
use project2_group.Userprog.Descriptors.{Files, Process, Outcome, returns, exits}
use project2_group.Userprog.Descriptors.Opening.{slot, IsTable}
use project2_group.Userprog.Descriptors.Model.{
  Call, opening, length_of, reading, writing, seeking, telling, closing, Answer, Map, perform,
  before, run_calls, on_file, promise, before_all, promises,
}
use project2_group.Userprog.Descriptors.Keeping.{
  view, Represents, Keeps, closing-Keeps, writing-Keeps, opening-Keeps, length_of-Keeps,
  reading-Keeps, seeking-Keeps, telling-Keeps,
}

module _ {S : Type 0} where
  -- The same of a run of calls.
  abbrev pub KeepsAll : Run (Option (List Answer × Map S)) → Run (List Answer × Process S) → Type 0
  KeepsAll (ok none) r = Unit {0}
  KeepsAll (ok (some (answers, m))) r = (p : Process S) × (r ≡ ok (answers, p)) × Represents p m
  KeepsAll panic r = r ≡ panic
  KeepsAll fault r = r ≡ fault
  KeepsAll out_of_fuel r = r ≡ out_of_fuel

module _ {S : Type 0} (f : Files S) (p : Process S) (t : IsTable p) where
  -- A call that is about a descriptor.
  kept_at :
      (c : Call) (fd : ℕ)
      → ((q : ℕ) → slot p fd ≡ some q → Keeps (on_file f c q (view p)) (perform f c p))
      → Keeps
          (elim (slot p fd) [ none ↦ ok none | some q ↦ on_file f c q (view p) ])
          (perform f c p)
  kept_at c fd k = at (slot p fd) refl
    where
      at :
          (o : Option ℕ)
          → slot p fd ≡ o
          → Keeps (elim o [ none ↦ ok none | some q ↦ on_file f c q (view p) ]) (perform f c p)
      at none e = tt
      at (some q) e = k q e

  promise-Keeps : (c : Call) → Keeps (promise f c (view p)) (perform f c p)
  unfolding promise
  promise-Keeps (opening name) = opening-Keeps f p t name
  promise-Keeps (length_of fd) = kept_at (length_of fd) fd (length_of-Keeps f p t fd)
  promise-Keeps (reading fd size) =
      kept_at (reading fd size) fd (λ q. reading-Keeps f p t fd q size)
  promise-Keeps (writing fd buffer) =
      kept_at (writing fd buffer) fd (λ q. writing-Keeps f p t fd q buffer)
  promise-Keeps (seeking fd position) =
      kept_at (seeking fd position) fd (λ q. seeking-Keeps f p t fd q position)
  promise-Keeps (telling fd) = kept_at (telling fd) fd (telling-Keeps f p t fd)
  promise-Keeps (closing fd) = kept_at (closing fd) fd (closing-Keeps f p t fd)

module _ {S : Type 0} (f : Files S) where
  abbrev Rest : Type 0
  Rest = Map S → Run (Option (List Answer × Map S))

  -- An answer before those of the other calls.
  answer_first :
      (a : Answer) (r : Run (Option (List Answer × Map S))) (run : Run (List Answer × Process S))
      → KeepsAll r run
      → KeepsAll (r >>= λ q. ok (before_all f a q)) (before f a run)
  answer_first a (ok none) run k = tt
  answer_first a (ok (some (answers, m))) run (p, e, h) = (p, rw e refl, h)
  answer_first a panic run k = rw k refl
  answer_first a fault run k = rw k refl
  answer_first a out_of_fuel run k = rw k refl

  -- The first call, and the others from the state that it leaves.
  after_first :
      (r : Run (Option (Answer × Map S))) (out : Run (List ℕ × Outcome S)) (rest : Rest)
      (go : Process S → Run (List Answer × Process S))
      → ((p : Process S) → IsTable p → KeepsAll (rest (view p)) (go p))
      → Keeps r out
      → KeepsAll
          (r >>= λ o. elim o [
            | none ↦ ok none
            | some x ↦ (rest x.1 >>= λ q. ok (before_all f x.0 q))
          ])
          (out >>= λ x. elim x.1 [
            | returns v p' ↦ before f (x.0, v) (go p')
            | exits p' ↦ ok ([], p')
          ])
  after_first (ok none) out rest go k h = tt
  after_first (ok (some (a, m))) out rest go k (p, e, (t, v)) =
      rw (e, sym v) (answer_first a (rest (view p)) (go p) (k p t))
  after_first panic out rest go k h = rw h refl
  after_first fault out rest go k h = rw h refl
  after_first out_of_fuel out rest go k h = rw h refl

  -- For every sequence of calls on files and every process whose descriptors in use lie between 2 and `fd_index`:
  -- if the map from descriptors to files promises something of all the calls, the code does the same, with the same
  -- bytes read, the same results, and a table that stands for the map reached; it fails where a call of the file
  -- system fails, and in the same way. In the map, opening a file gives out the next number, from 2 to 129, for it;
  -- the other calls go to the file of their number; closing removes it. Nothing is promised for a call on a
  -- number without a file, or for an opening when 128 have been given out.
  pub run_calls-promises :
      (calls : List Call) (p : Process S)
      → IsTable p
      → KeepsAll (promises f calls (view p)) (run_calls f calls p)
  unfolding promises run_calls
  run_calls-promises [] p t = (p, refl, (t, refl))
  run_calls-promises (c ∷ calls) p t =
      after_first (promise f c (view p)) (perform f c p) (promises f calls) (run_calls f calls)
        (run_calls-promises calls) (promise-Keeps f p t c)
