-- ===== src/Klib/Links/Tests.antt =====
-- Two lists in memory: with the elements 10 and 20 between the ends 1 and 2, and 30 between 3 and 4.
use project2_group.Base.{
  ltb, ℕ, ◌≡◌, refl, List, [], ◌∷◌, none, some, ok, ◌==◌, if◌then◌else◌, arith,
}
use project2_group.Klib.Sequence
use project2_group.Klib.OrderedList
use project2_group.Klib.Links.{Memory, Ends, list_insert, list_splice, list_size}
use project2_group.Klib.Links.Lists.{IsList}
use project2_group.Klib.Links.Operations.{list_insert_lem, list_splice_lem}
use project2_group.Klib.Links.Queue.{Answers}
use project2_group.Klib.Links.Loops.{list_size_lem}
use project2_group.Klib.Links.Refinement.{
  Call, push_front, pop_front, pop_back, remove, insert_ordered, IsLegal, run_links, run_sequence,
  run_links_refines,
}

abbrev table : List (ℕ × ℕ) → ℕ → ℕ
table [] q = 0
table ((p, v) ∷ r) q = if q == p then v else table r q

abbrev sample : Memory
sample = record {
  prev = table ((10, 1) ∷ (20, 10) ∷ (2, 20) ∷ (30, 3) ∷ (4, 30) ∷ []);
  next = table ((1, 10) ∷ (10, 20) ∷ (20, 2) ∷ (3, 30) ∷ (30, 4) ∷ []);
}

abbrev two : Ends
two = record { head = 1; tail = 2 }

abbrev one : Ends
one = record { head = 3; tail = 4 }

two-IsList : IsList sample two (10 ∷ 20 ∷ [])
two-IsList = record {
  linked = (refl, refl, (refl, refl, (refl, refl, (refl, refl))));
  distinct = (
    (omega arith, (omega arith, (omega arith, (omega arith, tt)))),
    (
      (omega arith, (omega arith, (omega arith, tt))),
      ((omega arith, (omega arith, tt)), ((omega arith, tt), (tt, tt))),
    ),
  );
}

one-IsList : IsList sample one (30 ∷ [])
one-IsList = record {
  linked = (refl, refl, (refl, refl, (refl, refl)));
  distinct = (
    (omega arith, (omega arith, (omega arith, tt))),
    ((omega arith, (omega arith, tt)), ((omega arith, tt), (tt, tt))),
  );
}

list_insert_test :
    (h' : Memory) × (list_insert sample 20 15 ≡ ok h') × IsList h' two (10 ∷ 15 ∷ 20 ∷ [])
list_insert_test =
    list_insert_lem sample two (10 ∷ []) (20 ∷ []) 15 two-IsList (omega arith)
      (omega arith, (omega arith, (omega arith, (omega arith, tt))))

-- From 10, inclusive, to 20, exclusive, to the end of the other list.
list_splice_lem_example :
    (h' : Memory) × (list_splice sample 4 10 20 ≡ ok h')
    × IsList h' two (20 ∷ [])
    × IsList h' one (30 ∷ 10 ∷ [])
list_splice_lem_example =
    list_splice_lem sample two one [] 10 [] (20 ∷ []) (30 ∷ []) [] two-IsList one-IsList (
      (omega arith, (omega arith, (omega arith, tt))),
      (
        (omega arith, (omega arith, (omega arith, tt))),
        (
          (omega arith, (omega arith, (omega arith, tt))),
          ((omega arith, (omega arith, (omega arith, tt))), tt),
        ),
      ),
    )

list_size_lem_example : list_size 3 sample two ≡ ok (Sequence.list_size (10 ∷ 20 ∷ []))
unfolding Sequence.list_size
list_size_lem_example = list_size_lem sample two (10 ∷ 20 ∷ []) 3 two-IsList (omega arith)

abbrev calls : List Call
calls = remove 20 ∷ push_front 5 ∷ insert_ordered 7 ∷ pop_back ∷ pop_front ∷ []

answers_test :
    run_sequence ltb 3 (10 ∷ 20 ∷ []) calls
    ≡ some (none ∷ none ∷ none ∷ some 10 ∷ some 5 ∷ [], 7 ∷ [])
unfolding run_sequence Sequence.list_push_front Sequence.list_pop_back OrderedList.list_pop_front
    OrderedList.list_remove OrderedList.list_insert_ordered
answers_test = refl

-- An element is taken from an empty list.
panic_test : run_sequence ltb 3 [] (pop_front ∷ []) ≡ none
unfolding run_sequence OrderedList.list_pop_front
panic_test = refl

calls-IsLegal : IsLegal ltb 3 two (10 ∷ 20 ∷ []) calls
unfolding Sequence.list_size OrderedList.list_remove OrderedList.list_insert_ordered
    Sequence.list_push_front Sequence.list_pop_back OrderedList.list_pop_front
calls-IsLegal = (
  (10 ∷ [], [], refl),
  (
    (omega arith, (omega arith, (omega arith, (omega arith, tt)))),
    (
      (omega arith, (omega arith, (omega arith, (omega arith, (omega arith, tt)))), omega arith),
      (tt, (tt, tt)),
    ),
  ),
)

run_links_refines_example :
    Answers two
      (run_links ltb 3 sample two calls)
      (some (none ∷ none ∷ none ∷ some 10 ∷ some 5 ∷ [], 7 ∷ []))
unfolding run_sequence Sequence.list_push_front Sequence.list_pop_back OrderedList.list_pop_front
    OrderedList.list_remove OrderedList.list_insert_ordered
run_links_refines_example =
    run_links_refines ltb 3 two sample (10 ∷ 20 ∷ []) calls two-IsList calls-IsLegal
