-- ===== src/Threads/Scheduler/Order.antt =====
-- The ready list as a queue by priority, and what inserting into it does.
use mathlib.Core.List.{Perm}
use mathlib.Core.List.Perm
use project2_group.Base.{
  ℕ, ◌≤◌, ◌<◌, ◌≡◌, ◌≢◌, refl, sym, ap, ◌∙◌, subst, inl, inr, List, [], ◌∷◌, ◌++◌, arith,
  Bool-cases,
}
use project2_group.Klib.OrderedList.{list_insert_ordered}
use project2_group.Threads.Scheduler.{Thread, ready, prioritycmp, write_thread}

-- No thread of the list has a priority above `n`.
abbrev pub Under : (ℕ → Thread) → ℕ → List ℕ → Type 0
Under f n [] = Unit {0}
Under f n (t ∷ ts) = ((f t).priority ≤ n) × Under f n ts

abbrev pub Absent : ℕ → List ℕ → Type 0
Absent p [] = Unit {0}
Absent p (t ∷ ts) = (p ≢ t) × Absent p ts

-- The threads of the list all have the priority `n` or more.
abbrev pub Reaches : (ℕ → Thread) → ℕ → List ℕ → Type 0
Reaches f n [] = Unit {0}
Reaches f n (t ∷ ts) = (n ≤ (f t).priority) × Reaches f n ts

-- The threads of the list all have a priority below `n`.
abbrev pub Below : (ℕ → Thread) → ℕ → List ℕ → Type 0
Below f n [] = Unit {0}
Below f n (t ∷ ts) = ((f t).priority < n) × Below f n ts

-- Every thread is ready, stands in the list once, and has at least the priority of those behind it.
abbrev pub IsQueue : (ℕ → Thread) → List ℕ → Type 0
IsQueue f [] = Unit {0}
IsQueue f (t ∷ ts) = ((f t).status ≡ ready) × Under f (f t).priority ts × Absent t ts × IsQueue f ts

pub Under-mono : (f : ℕ → Thread) (m n : ℕ) (ts : List ℕ) → m ≤ n → Under f m ts → Under f n ts
Under-mono f m n [] h u = tt
Under-mono f m n (t ∷ ts) h u = (omega arith, Under-mono f m n ts h u.1)

pub Under-congr :
    (f g : ℕ → Thread) (n : ℕ) (ts : List ℕ)
    → ((t : ℕ) → (g t).priority ≡ (f t).priority)
    → Under f n ts
    → Under g n ts
Under-congr f g n [] h u = tt
Under-congr f g n (t ∷ ts) h u = (rw (h t) u.0, Under-congr f g n ts h u.1)

pub Under-Below : (f : ℕ → Thread) (m n : ℕ) (ts : List ℕ) → m < n → Under f m ts → Below f n ts
Under-Below f m n [] h u = tt
Under-Below f m n (t ∷ ts) h u = (omega arith, Under-Below f m n ts h u.1)

-- A thread that is not ready is not in the queue.
pub Absent-of_not_ready :
    (f : ℕ → Thread) (p : ℕ) (ts : List ℕ) → (f p).status ≢ ready → IsQueue f ts → Absent p ts
Absent-of_not_ready f p [] h q = tt
Absent-of_not_ready f p (t ∷ ts) h q =
    (λ e. h (ap (λ u. (f u).status) e ∙ q.0), Absent-of_not_ready f p ts h q.3)

module _ (f : ℕ → Thread) (p : ℕ) (x : Thread) where
  write-ne : (t : ℕ) → p ≢ t → write_thread f p x t ≡ f t
  write-ne t h = ground arith

  Under-write : (n : ℕ) (ts : List ℕ) → Absent p ts → Under f n ts → Under (write_thread f p x) n ts
  Under-write n [] a u = tt
  Under-write n (t ∷ ts) a u =
      (subst (λ r. r.priority ≤ n) (sym (write-ne t a.0)) u.0, Under-write n ts a.1 u.1)

  -- A write to a thread outside the queue does not disturb it.
  pub IsQueue-write : (ts : List ℕ) → Absent p ts → IsQueue f ts → IsQueue (write_thread f p x) ts
  IsQueue-write [] a q = tt
  IsQueue-write (t ∷ ts) a q =
      let e = sym (write-ne t a.0) in
      (
        subst (λ r. r.status ≡ ready) e q.0,
        subst (λ r. Under (write_thread f p x) r.priority ts) e
            (Under-write (f t).priority ts a.1 q.1),
        q.2,
        IsQueue-write ts a.1 q.3,
      )

-- The insertion looks at priorities only.
pub insert-congr :
    (f g : ℕ → Thread) (t : ℕ) (ts : List ℕ)
    → ((u : ℕ) → (f u).priority ≡ (g u).priority)
    → list_insert_ordered (prioritycmp f) t ts ≡ list_insert_ordered (prioritycmp g) t ts
unfolding list_insert_ordered
insert-congr f g t [] h = refl
insert-congr f g t (u ∷ us) h = rw (h t, h u, insert-congr f g t us h)

module _ (f : ℕ → Thread) (t : ℕ) where
  insert-Under :
      (n : ℕ) (ts : List ℕ)
      → (f t).priority ≤ n
      → Under f n ts
      → Under f n (list_insert_ordered (prioritycmp f) t ts)
  unfolding list_insert_ordered
  insert-Under n [] h u = (h, tt)
  insert-Under n (v ∷ vs) h u = ground (arith, insert-Under n vs h u.1)

  insert-Absent :
      (p : ℕ) (ts : List ℕ)
      → p ≢ t
      → Absent p ts
      → Absent p (list_insert_ordered (prioritycmp f) t ts)
  unfolding list_insert_ordered
  insert-Absent p [] h a = (h, tt)
  insert-Absent p (v ∷ vs) h a = ground (arith, insert-Absent p vs h a.1)

  -- A ready thread that is not yet in the queue can be inserted.
  pub insert-IsQueue :
      (ts : List ℕ)
      → (f t).status ≡ ready
      → Absent t ts
      → IsQueue f ts
      → IsQueue f (list_insert_ordered (prioritycmp f) t ts)
  unfolding list_insert_ordered
  insert-IsQueue [] h a q = (h, tt, tt, tt)
  insert-IsQueue (v ∷ vs) h a q = elim (Bool-cases (prioritycmp f t v)) [
    | inl above ↦
        rw above (
          h,
          (ground arith, Under-mono f (f v).priority (f t).priority vs (ground arith) q.1),
          a,
          q,
        )
    | inr below ↦ rw below (
      q.0,
      insert-Under (f v).priority vs (ground arith) q.1,
      insert-Absent v vs (λ e. a.0 (sym e)) q.2,
      insert-IsQueue vs h a.1 q.3,
    )
  ]

  pub insert-ne_nil : (ts : List ℕ) → list_insert_ordered (prioritycmp f) t ts ≢ []
  unfolding list_insert_ordered
  insert-ne_nil [] e = cc
  insert-ne_nil (v ∷ vs) e = elim (Bool-cases (prioritycmp f t v)) [ inl h ↦ cc | inr h ↦ cc ]

  -- Nothing else enters or leaves the queue.
  pub insert-perm : (ts : List ℕ) → Perm (list_insert_ordered (prioritycmp f) t ts) (t ∷ ts)
  unfolding list_insert_ordered
  insert-perm [] = Perm.refl (t ∷ [])
  insert-perm (v ∷ vs) = elim (Bool-cases (prioritycmp f t v)) [
    | inl above ↦ rw above (Perm.refl (t ∷ v ∷ vs))
    | inr below ↦ rw below (Perm.trans (Perm.cons v (insert-perm vs)) (Perm.swap t v vs))
  ]

  -- A thread enters the queue behind every thread that has its priority or more and before every
  -- thread of lower priority, so threads of one priority keep the order of their arrival.
  pub insert-Splits :
      (ts : List ℕ)
      → IsQueue f ts
      → (before after : List ℕ) × (ts ≡ before ++ after)
        × (list_insert_ordered (prioritycmp f) t ts ≡ before ++ t ∷ after)
        × Reaches f (f t).priority before
        × Below f (f t).priority after
  unfolding list_insert_ordered
  insert-Splits [] q = ([], [], refl, refl, tt, tt)
  insert-Splits (v ∷ vs) q = elim (Bool-cases (prioritycmp f t v)) [
    | inl above ↦ (
      [],
      v ∷ vs,
      refl,
      rw above refl,
      tt,
      (ground arith, Under-Below f (f v).priority (f t).priority vs (ground arith) q.1),
    )
    | inr below ↦
        let (before, after, e, e', hb, ha) = insert-Splits vs q.3 in
        (v ∷ before, after, ap (◌∷◌ v) e, rw below (ap (◌∷◌ v) e'), (ground arith, hb), ha)
  ]
