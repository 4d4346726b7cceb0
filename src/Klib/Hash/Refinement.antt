-- ===== src/Klib/Hash/Refinement.antt =====
-- A table as a map: what `hash_find` answers after any sequence of operations.
use project2_group.Base.{
  ℕ, ◌≡◌, refl, ap, ◌∙◌, subst, Bool, true, Option, none, some, List, [], ◌∷◌, arith, fun_ext,
  some-injective,
}
use project2_group.Klib.Hash.{Hash, hash_init, hash_find, hash_insert, hash_replace, hash_delete}
use project2_group.Klib.Hash.Finding.{IsKey}
use project2_group.Klib.Hash.Placing.{empty-Placed}
use project2_group.Klib.Hash.Table.{IsTable}
use project2_group.Klib.Hash.Operations.{
  Map, update, insert_new, hash_insert-ok, hash_replace-ok, hash_delete-ok,
}

-- A call, with whether `malloc` gives memory for new buckets.
pub data Call : Type 0 where
  insert replace delete : Bool → ℕ → Call

-- What a call returns, and the table; `none` is a loop without end.
unfoldable pub call : (ℕ → ℕ) → (ℕ → ℕ → Bool) → Call → Hash → Option (Option ℕ × Hash)
call hash less (insert mem e) h = hash_insert hash less mem h e
call hash less (replace mem e) h = hash_replace hash less mem h e
call hash less (delete mem e) h = hash_delete hash less mem h e

-- What the calls return, and the table after them.
unfoldable pub run_calls :
    (ℕ → ℕ) → (ℕ → ℕ → Bool) → List Call → Hash → Option (List (Option ℕ) × Hash)
unfolding call
run_calls hash less [] h = some ([], h)
run_calls hash less (c ∷ cs) h = elim (call hash less c h) [
  | none ↦ none
  | some r ↦ elim (run_calls hash less cs r.1) [ none ↦ none | some rs ↦ some (r.0 ∷ rs.0, rs.1) ]
]

chained :
    Option (Option ℕ × Hash)
    → (Hash → Option (List (Option ℕ) × Hash))
    → Option (List (Option ℕ) × Hash)
chained first rest = elim first [
  | none ↦ none
  | some r ↦ elim (rest r.1) [ none ↦ none | some rs ↦ some (r.0 ∷ rs.0, rs.1) ]
]

chained-some :
    (first : Option (Option ℕ × Hash)) (rest : Hash → Option (List (Option ℕ) × Hash))
    (o : Option ℕ) (os : List (Option ℕ)) (h1 h2 : Hash)
    → first ≡ some (o, h1)
    → rest h1 ≡ some (os, h2)
    → chained first rest ≡ some (o ∷ os, h2)
unfolding chained
chained-some first rest o os h1 h2 r r' = rw (r, r', chained) refl

run_cons :
    (hash : ℕ → ℕ) (less : ℕ → ℕ → Bool) (c : Call) (cs : List Call) (h h1 h2 : Hash) (o : Option ℕ)
    (os : List (Option ℕ))
    → call hash less c h ≡ some (o, h1)
    → run_calls hash less cs h1 ≡ some (os, h2)
    → run_calls hash less (c ∷ cs) h ≡ some (o ∷ os, h2)
unfolding run_calls chained
run_cons hash less c cs h h1 h2 o os r r' =
    chained-some (call hash less c h) (run_calls hash less cs) o os h1 h2 r r'

-- The same calls on a map.
module _ (less : ℕ → ℕ → Bool) where
  abbrev pub map_call : Call → Map → Map
  map_call (insert mem e) f = insert_new less e f
  map_call (replace mem e) f = update less e (some e) f
  map_call (delete mem e) f = update less e none f

  abbrev pub asked : Call → ℕ
  asked (insert mem e) = e
  asked (replace mem e) = e
  asked (delete mem e) = e

  abbrev pub map_answers : List Call → Map → List (Option ℕ)
  map_answers [] f = []
  map_answers (c ∷ cs) f = f (asked c) ∷ map_answers cs (map_call c f)

  abbrev pub map_run : List Call → Map → Map
  map_run [] f = f
  map_run (c ∷ cs) f = map_run cs (map_call c f)

module _ (hash : ℕ → ℕ) (less : ℕ → ℕ → Bool) (key : IsKey hash less) where
  call-ok :
      (c : Call) (h : Hash)
      → IsTable hash less h
      → (h' : Hash) × (call hash less c h ≡ some (hash_find hash less h (asked less c), h'))
        × IsTable hash less h'
        × (hash_find hash less h' ≡ map_call less c (hash_find hash less h))
  unfolding call
  call-ok (insert mem e) h w =
      let (h', r, t, f) = hash_insert-ok hash less key mem h e w in (h', r, t, fun_ext f)
  call-ok (replace mem e) h w =
      let (h', r, t, f) = hash_replace-ok hash less key mem h e w in (h', r, t, fun_ext f)
  call-ok (delete mem e) h w =
      let (h', r, t, f) = hash_delete-ok hash less key mem h e w in (h', r, t, fun_ext f)

  -- From a valid table, with `hash` and `less` that agree on which elements are equivalent: any sequence of
  -- insertions, replacements and deletions ends, whether or not memory is given for new buckets. What
  -- the calls return is what a map from elements to elements returns for the same calls; the table stays valid,
  -- and `hash_find` answers then as the map does.
  pub run_calls_refines :
      (cs : List Call) (h : Hash)
      → IsTable hash less h
      → (h' : Hash) × (run_calls hash less cs h
          ≡ some (map_answers less cs (hash_find hash less h), h'))
        × IsTable hash less h'
        × (hash_find hash less h' ≡ map_run less cs (hash_find hash less h))
  unfolding run_calls
  run_calls_refines [] h w = (h, refl, w, refl)
  run_calls_refines (c ∷ cs) h w =
      let (h1, r, t, f) = call-ok c h w in
      let (h2, r', t', f') = run_calls_refines cs h1 t in
      (
        h2,
        run_cons hash less c cs h h1 h2 _ _ r r'
            ∙ ap (λ g. some (hash_find hash less h (asked less c) ∷ map_answers less cs g, h2)) f,
        t',
        f' ∙ ap (map_run less cs) f,
      )

  pub init-IsTable : (h : Hash) → hash_init true ≡ some h → IsTable hash less h
  unfolding hash_init
  init-IsTable h e = subst (IsTable hash less) (some-injective e) (record {
    spread = record {
      some_bucket = omega arith;
      size = refl;
      placed = empty-Placed hash 4 0 4;
      counted = refl;
    };
    distinct = tt;
  })
