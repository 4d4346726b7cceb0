-- ===== src/Klib/Links/Loops.antt =====
-- The loops of `list_size` and `list_insert_ordered` end, and give what the functions on sequences give.
use project2_group.Base.{
  Bool-cases, ℕ, zero, suc, ◌+◌, ◌<◌, ◌≡◌, ◌≢◌, refl, sym, ap, ◌∙◌, subst, inl, inr, List, [], ◌∷◌,
  ◌++◌, ok, Bool, true, false, ne_test, ==_iff, arith, ◌||◌,
}
use mathlib.Core.List.{append_assoc}
use project2_group.Klib.OrderedList
use project2_group.Klib.Sequence
use project2_group.Klib.Links.{
  Memory, Ends, is_head, list_next, list_size, size_loop, insert_loop, list_insert_ordered,
}
use project2_group.Klib.Links.Chain.{Absent, last_apart, Absent-append}
use project2_group.Klib.Links.Surgery.{get_next-ok}
use project2_group.Klib.Links.Lists.{
  addresses, IsList, first_or, inner, Parts-with, around-IsList, first-rest,
}
use project2_group.Klib.Links.Operations.{list_insert_lem}
use project2_group.Klib.Links.Queue.{begin-ok}

or_true : (b : Bool) → (b || true) ≡ true
or_true true = refl
or_true false = refl

-- `list_next` of an element goes to the one behind it, or to the tail.
next-ok :
    (h : Memory) (l : Ends) (us : List ℕ) (v : ℕ) (vs : List ℕ)
    → IsList h l (us ++ v ∷ vs)
    → (v ≢ l.tail) × (list_next h v ≡ ok (first_or l.tail vs))
unfolding list_next
next-ok h l us v vs w =
    let s = Parts-with l us v [] vs w.distinct in
    let (left, mid, right) = around-IsList l us v [] vs h w in
    let interior =
      inner h v s.middle_nonnull.0 (λ z. last_apart 0 l.head us s.left_nonnull (sym mid.0 ∙ z))
        (λ z. s.right_nonnull.0 (sym mid.1 ∙ z)) in
    let behind = subst (Absent v) (sym (first-rest l.tail vs)) s.middle_right.0 in
    (
      λ q. (Absent-append v vs (l.tail ∷ []) behind).1.0 (sym q),
      rw
          (
            interior,
            or_true (is_head h v),
            get_next-ok h v (first_or l.tail vs) s.middle_nonnull.0 mid.1,
          )
          refl,
    )

-- The loop of `list_size` from a position on.
size_loop-ok :
    (h : Memory) (l : Ends) (us vs : List ℕ) (fuel cnt : ℕ)
    → IsList h l (us ++ vs)
    → Sequence.list_size vs < fuel
    → size_loop fuel h l (first_or l.tail vs) cnt ≡ ok (cnt + Sequence.list_size vs)
unfolding size_loop Sequence.list_size
size_loop-ok h l us vs zero cnt w d = absurd (omega arith)
size_loop-ok h l us [] (suc fuel) cnt w d = rw ((==_iff l.tail l.tail).1 refl) (ap ok (omega arith))
size_loop-ok h l us (v ∷ vs) (suc fuel) cnt w d =
    let (n, r) = next-ok h l us v vs w in
    let rest =
      size_loop-ok h l (us ++ v ∷ []) vs fuel (cnt + 1)
        (subst (IsList h l) (sym (append_assoc us (v ∷ []) vs)) w) (omega arith) in
    rw (ne_test v l.tail n, r, rest) (ap ok (omega arith))

-- With more fuel than there are elements `list_size` counts them.
pub list_size_lem :
    (h : Memory) (l : Ends) (es : List ℕ) (fuel : ℕ)
    → IsList h l es
    → Sequence.list_size es < fuel
    → list_size fuel h l ≡ ok (Sequence.list_size es)
unfolding list_size
list_size_lem h l es fuel w d =
    rw (begin-ok h l es w) (size_loop-ok h l [] es fuel 0 w d ∙ ap ok (omega arith))

-- The loop of `list_insert_ordered` from a position on.
insert_loop-ok :
    (less : ℕ → ℕ → Bool) (h : Memory) (l : Ends) (us vs : List ℕ) (fuel e : ℕ)
    → IsList h l (us ++ vs)
    → e ≢ 0
    → Absent e (addresses l (us ++ vs))
    → Sequence.list_size vs < fuel
    → (h' : Memory) × (insert_loop less fuel h l e (first_or l.tail vs) ≡ ok h')
      × IsList h' l (us ++ OrderedList.list_insert_ordered less e vs)
unfolding insert_loop OrderedList.list_insert_ordered Sequence.list_size
insert_loop-ok less h l us vs zero e w e_0 a d = absurd (omega arith)
insert_loop-ok less h l us [] (suc fuel) e w e_0 a d =
    let (h', r, w') = list_insert_lem h l us [] e w e_0 a in
    (h', rw ((==_iff l.tail l.tail).1 refl) r, w')
insert_loop-ok less h l us (v ∷ vs) (suc fuel) e w e_0 a d =
    let (n, next) = next-ok h l us v vs w in
    elim (Bool-cases (less e v)) [
      | inl q ↦
          let (h', r, w') = list_insert_lem h l us (v ∷ vs) e w e_0 a in
          rw q (h', rw (ne_test v l.tail n) r, w')
      | inr q ↦
          let assoc = append_assoc us (v ∷ []) vs in
          let (h', r, w') =
            insert_loop-ok less h l (us ++ v ∷ []) vs fuel e (subst (IsList h l) (sym assoc) w) e_0
              (subst (λ xs. Absent e (addresses l xs)) (sym assoc) a) (omega arith) in
          rw q (
            h',
            rw (ne_test v l.tail n, next) r,
            subst (IsList h' l)
                (append_assoc us (v ∷ []) (OrderedList.list_insert_ordered less e vs)) w',
          )
    ]

pub insert_ordered-IsList :
    (less : ℕ → ℕ → Bool) (h : Memory) (l : Ends) (es : List ℕ) (fuel e : ℕ)
    → IsList h l es
    → e ≢ 0
    → Absent e (addresses l es)
    → Sequence.list_size es < fuel
    → (h' : Memory) × (list_insert_ordered less fuel h l e ≡ ok h')
      × IsList h' l (OrderedList.list_insert_ordered less e es)
unfolding list_insert_ordered
insert_ordered-IsList less h l es fuel e w e_0 a d =
    let (h', r, w') = insert_loop-ok less h l [] es fuel e w e_0 a d in
    (h', rw (begin-ok h l es w) r, w')
