-- ===== src/Klib/Links/Queue.antt =====
-- The functions at the ends of a list, in memory, give what those on its sequence of elements give.
use project2_group.Base.{
  ℕ, ◌≡◌, ◌≢◌, refl, sym, ap, ◌∙◌, subst, inl, inr, ◌⊎◌, List, [], ◌∷◌, ◌++◌, Option, none, some,
  Run, ok, panic, ◌>>=◌, false, ne_test, ==_iff,
}
use project2_group.Klib.OrderedList
use project2_group.Klib.Sequence
use project2_group.Klib.Links.{
  Memory, Ends, list_begin, list_insert, list_remove, list_push_front, list_push_back, list_empty,
  list_front, list_back, list_pop_front, list_pop_back,
}
use project2_group.Klib.Links.Chain.{
  Absent, Distinct, last, prev-Chain, Absent-append, Distinct-append, Apart-head,
}
use project2_group.Klib.Links.Surgery.{get_prev-ok, get_next-ok}
use project2_group.Klib.Links.Lists.{addresses, IsList, first_or, cut_at, split-IsList}
use project2_group.Klib.Links.Operations.{list_insert_lem, list_remove_lem}

-- The addresses of the ends.
head_nonnull : (h : Memory) (l : Ends) (es : List ℕ) → IsList h l es → l.head ≢ 0
head_nonnull h l es w = w.distinct.0.0

tail_nonnull : (h : Memory) (l : Ends) (es : List ℕ) → IsList h l es → l.tail ≢ 0
tail_nonnull h l es w = (Absent-append 0 es (l.tail ∷ []) w.distinct.0.1).1.0

pub begin-ok :
    (h : Memory) (l : Ends) (es : List ℕ) → IsList h l es → list_begin h l ≡ ok (first_or l.tail es)
begin-ok h l es w =
    get_next-ok h l.head (first_or l.tail es) (head_nonnull h l es w) (split-IsList h l [] es w).0.1

pub push_front-IsList :
    (h : Memory) (l : Ends) (es : List ℕ) (e : ℕ)
    → IsList h l es
    → e ≢ 0
    → Absent e (addresses l es)
    → (h' : Memory) × (list_push_front h l e ≡ ok h') × IsList h' l (Sequence.list_push_front es e)
unfolding list_push_front Sequence.list_push_front
push_front-IsList h l es e w d a =
    let (h', r, w') = list_insert_lem h l [] es e w d a in
    (h', ap (λ b. b >>= λ p. list_insert h p e) (begin-ok h l es w) ∙ r, w')

append_nothing : (es : List ℕ) → es ++ [] ≡ es
append_nothing [] = refl
append_nothing (e ∷ es) = ap (◌∷◌ e) (append_nothing es)

pub push_back-IsList :
    (h : Memory) (l : Ends) (es : List ℕ) (e : ℕ)
    → IsList h l es
    → e ≢ 0
    → Absent e (addresses l es)
    → (h' : Memory) × (list_push_back h l e ≡ ok h') × IsList h' l (OrderedList.list_push_back es e)
unfolding list_push_back OrderedList.list_push_back
push_back-IsList h l es e w d a =
    list_insert_lem h l es [] e (subst (IsList h l) (sym (append_nothing es)) w) d
      (subst (λ xs. Absent e (addresses l xs)) (sym (append_nothing es)) a)

empty-ok :
    (h : Memory) (l : Ends) (es : List ℕ)
    → IsList h l es
    → list_empty h l ≡ ok (Sequence.list_empty es)
unfolding list_empty Sequence.list_empty
empty-ok h l [] w = rw (begin-ok h l [] w, (==_iff l.tail l.tail).1 refl) refl
empty-ok h l (e ∷ es) w =
    rw
      (
        begin-ok h l (e ∷ es) w,
        ne_test e l.tail (λ q. (Absent-append e es (l.tail ∷ []) w.distinct.1.1.0).1.0 (sym q)),
      )
      refl

-- `none` of the sequence is the failed ASSERT.
abbrev pub Answers : {A : Type 0} → Ends → Run (A × Memory) → Option (A × List ℕ) → Type 0
Answers l r none = r ≡ panic
Answers l r (some (a, es)) = (h' : Memory) × (r ≡ ok (a, h')) × IsList h' l es

pub pop_front-IsList :
    (h : Memory) (l : Ends) (es : List ℕ)
    → IsList h l es
    → Answers l (list_pop_front h l) (OrderedList.list_pop_front es)
unfolding list_pop_front list_front OrderedList.list_pop_front Sequence.list_empty
pop_front-IsList h l [] w = rw (empty-ok h l [] w) refl
pop_front-IsList h l (e ∷ es) w =
    let (h', r, w') = list_remove_lem h l [] es e w in
    (h', rw (empty-ok h l (e ∷ es) w, begin-ok h l (e ∷ es) w, r) refl, w')

-- A list is empty or has a last element.
snoc_cases : (es : List ℕ) → (es ≡ []) ⊎ ((us : List ℕ) × (x : ℕ) × (es ≡ us ++ x ∷ []))
snoc_cases [] = inl refl
snoc_cases (e ∷ es) = elim (snoc_cases es) [
  | inl n ↦ inr ([], e, ap (◌∷◌ e) n)
  | inr (us, x, n) ↦ inr (e ∷ us, x, ap (◌∷◌ e) n)
]

pop_back_snoc : (us : List ℕ) (x : ℕ) → Sequence.list_pop_back (us ++ x ∷ []) ≡ some (x, us)
unfolding Sequence.list_pop_back
pop_back_snoc [] x = refl
pop_back_snoc (u ∷ []) x = refl
pop_back_snoc (u ∷ u' ∷ us) x = rw (pop_back_snoc (u' ∷ us) x) refl

empty_snoc : (us : List ℕ) (x : ℕ) → Sequence.list_empty (us ++ x ∷ []) ≡ false
unfolding Sequence.list_empty
empty_snoc [] x = refl
empty_snoc (u ∷ us) x = refl

last_snoc : (a : ℕ) (us : List ℕ) (x : ℕ) → last a (us ++ x ∷ []) ≡ x
last_snoc a [] x = refl
last_snoc a (u ∷ us) x = last_snoc u us x

prev_tail :
    (h : Memory) (l : Ends) (us : List ℕ) (x : ℕ) → IsList h l (us ++ x ∷ []) → h.prev l.tail ≡ x
prev_tail h l us x w =
    let whole = us ++ x ∷ [] in
    let (_, c) = split-IsList h l whole [] (subst (IsList h l) (sym (append_nothing whole)) w) in
    prev-Chain h (last l.head whole) l.tail [] 0 c ∙ last_snoc l.head us x

pop_back_none :
    (h : Memory) (l : Ends)
    → IsList h l []
    → Answers l (list_pop_back h l) (Sequence.list_pop_back [])
unfolding list_pop_back list_back Sequence.list_pop_back Sequence.list_empty
pop_back_none h l w = rw (empty-ok h l [] w) refl

pop_back_some :
    (h : Memory) (l : Ends) (us : List ℕ) (x : ℕ)
    → IsList h l (us ++ x ∷ [])
    → Answers l (list_pop_back h l) (Sequence.list_pop_back (us ++ x ∷ []))
unfolding list_pop_back list_back
pop_back_some h l us x w =
    let (h', r, w') = list_remove_lem h l us [] x w in
    let whole = us ++ x ∷ [] in
    rw
      (
        pop_back_snoc us x,
        empty-ok h l whole w,
        empty_snoc us x,
        get_prev-ok h l.tail x (tail_nonnull h l whole w) (prev_tail h l us x w),
        r,
      )
      (h', refl, subst (IsList h' l) (append_nothing us) w')

pub pop_back-IsList :
    (h : Memory) (l : Ends) (es : List ℕ)
    → IsList h l es
    → Answers l (list_pop_back h l) (Sequence.list_pop_back es)
pop_back-IsList h l es w = elim (snoc_cases es) [
  | inl n ↦
      subst (λ xs. Answers l (list_pop_back h l) (Sequence.list_pop_back xs)) (sym n)
        (pop_back_none h l (subst (IsList h l) n w))
  | inr (us, x, n) ↦
      subst (λ xs. Answers l (list_pop_back h l) (Sequence.list_pop_back xs)) (sym n)
        (pop_back_some h l us x (subst (IsList h l) n w))
]

remove_at :
    (e : ℕ) (us vs : List ℕ) → Absent e us → OrderedList.list_remove e (us ++ e ∷ vs) ≡ us ++ vs
unfolding OrderedList.list_remove
remove_at e [] vs a = rw ((==_iff e e).1 refl) refl
remove_at e (u ∷ us) vs (d, ds) = rw (ne_test u e d, remove_at e us vs ds) refl

pub remove-IsList :
    (h : Memory) (l : Ends) (us vs : List ℕ) (e : ℕ)
    → IsList h l (us ++ e ∷ vs)
    → (h' : Memory) × (list_remove h e ≡ ok (first_or l.tail vs, h'))
      × IsList h' l (OrderedList.list_remove e (us ++ e ∷ vs))
remove-IsList h l us vs e w =
    let (h', r, w') = list_remove_lem h l us vs e w in
    let (_, _, apart) =
      Distinct-append (l.head ∷ us) (e ∷ vs ++ l.tail ∷ [])
        (subst (λ xs. Distinct (l.head ∷ xs)) (cut_at us (e ∷ vs) l.tail) w.distinct.1) in
    (
      h',
      r,
      subst (IsList h' l)
          (sym (remove_at e us vs (Apart-head e (l.head ∷ us) (vs ++ l.tail ∷ []) apart).0.1)) w',
    )
