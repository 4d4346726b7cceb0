-- ===== src/Klib/Hash/Operations.antt =====
-- A table as a map: what `hash_find` answers after each operation.
use project2_group.Base.{
  ℕ, ◌≡◌, refl, sym, ap, ◌∙◌, inl, inr, Bool, true, false, Option, none, some, List, [], ◌∷◌,
  if◌then◌else◌, arith, Bool-cases, Option-cases, bool_clash, Shuffle, stay, ◌▸◌, Shuffle-sym,
}
use project2_group.Klib.Hash.{
  Hash, same, find_elem, bucket_idx, find_bucket, insert_elem, remove_elem, rehash, returning,
  hash_find, hash_insert, hash_replace, hash_delete,
}
use project2_group.Klib.Hash.Finding.{
  IsKey, Apart, Distinct, find-Mem, find-Apart, Apart-find, Distinct-Shuffle, find-Shuffle,
  same_comm,
}
use project2_group.Klib.Hash.Branches.{
  insert_if_none, insert_if_some, replace_if_none, replace_if_some, delete_if_none, delete_if_some,
}
use project2_group.Klib.Hash.Placing.{find-concat}
use project2_group.Klib.Hash.Table.{
  elements, IsSpread, IsTable, insert_elem-IsSpread, insert_elem-Shuffle, remove_elem-Shuffle,
  remove_elem-IsSpread, rehash-ok,
}

-- A table as the function that answers questions.
abbrev pub Map : Type 0
Map = ℕ → Option ℕ

module _ (less : ℕ → ℕ → Bool) where
  abbrev pub update : ℕ → Option ℕ → Map → Map
  update e o f q = if same less e q then o else f q

  abbrev pub insert_new : ℕ → Map → Map
  insert_new e f = elim (f e) [ none ↦ update e (some e) f | some x ↦ f ]

  insert_new-none : (e q : ℕ) (f : Map) → f e ≡ none → insert_new e f q ≡ update e (some e) f q
  insert_new-none e q f h = rw (h, insert_new) refl

  insert_new-some : (e q x : ℕ) (f : Map) → f e ≡ some x → insert_new e f q ≡ f q
  insert_new-some e q x f h = rw (h, insert_new) refl

module _ (hash : ℕ → ℕ) (less : ℕ → ℕ → Bool) (key : IsKey hash less) where
  pub hash_find-elements :
      (h : Hash) (q : ℕ)
      → IsTable hash less h
      → hash_find hash less h q ≡ find_elem less (elements h) q
  unfolding hash_find
  hash_find-elements h q w =
      find-concat hash less key h.bucket_cnt q 0 (bucket_idx hash h.bucket_cnt q) h.buckets
        w.spread.placed (omega arith)

  -- The elements of a table in another order answer the same.
  find-elements :
      (h : Hash) (xs : List ℕ) (q : ℕ)
      → IsTable hash less h
      → Shuffle (elements h) xs
      → hash_find hash less h q ≡ find_elem less xs q
  find-elements h xs q w p =
      hash_find-elements h q w ∙ find-Shuffle hash less key q (elements h) xs p w.distinct

  table :
      (h : Hash) (xs : List ℕ)
      → IsSpread hash h
      → Shuffle (elements h) xs
      → Distinct less xs
      → IsTable hash less h
  table h xs w p d = record {
    spread = w;
    distinct = Distinct-Shuffle less xs (elements h) (Shuffle-sym p) d;
  }

  -- What is the same as an element that is apart from a list is apart from it.
  Apart-same : (x q : ℕ) (ys : List ℕ) → same less x q ≡ true → Apart less x ys → Apart less q ys
  Apart-same x q [] s a = tt
  Apart-same x q (y ∷ ys) s (h, a) = elim (Bool-cases (same less y q)) [
    | inl t ↦ bool_clash h (key.transitive y q x t (same_comm less q x ∙ s))
    | inr t ↦ (t, Apart-same x q ys s a)
  ]

  -- The table after the rehash that ends each operation, from the elements before it.
  rehashed :
      (mem : Bool) (h : Hash) (xs : List ℕ)
      → IsSpread hash h
      → Shuffle (elements h) xs
      → Distinct less xs
      → (h' : Hash) × (rehash hash mem h ≡ some h')
        × IsTable hash less h'
        × ((q : ℕ) → hash_find hash less h' q ≡ find_elem less xs q)
  rehashed mem h xs w p d =
      let (h', e, w', p') = rehash-ok hash mem h w in
      let t = table h' xs w' (p' ▸ p) d in (h', e, t, λ q. find-elements h' xs q t (p' ▸ p))

  module _ (mem : Bool) (h : Hash) (e : ℕ) (w : IsTable hash less h) where
    sought : Option ℕ
    sought = find_elem less (find_bucket hash h e) e

    absent : sought ≡ none → Apart less e (elements h)
    unfolding sought hash_find
    absent n = Apart-find less (elements h) e (sym (hash_find-elements h e w) ∙ n)

    -- The element that was found, taken out.
    taken_out :
        (x : ℕ)
        → sought ≡ some x
        → (g : Hash) × (g ≡ remove_elem h (bucket_idx hash h.bucket_cnt e) x)
          × IsSpread hash g
          × Distinct less (x ∷ elements g)
          × Shuffle (elements h) (x ∷ elements g)
          × (same less x e ≡ true)
    unfolding sought
    taken_out x f =
        let (m, s) = find-Mem less (find_bucket hash h e) e x f in
        let i = bucket_idx hash h.bucket_cnt e in
        let p = Shuffle-sym (remove_elem-Shuffle hash h i x m) in
        (
          remove_elem h i x,
          refl,
          remove_elem-IsSpread hash h i x m w.spread,
          Distinct-Shuffle less (elements h) _ p w.distinct,
          p,
          s,
        )

    -- Without it, the other elements are still found.
    others :
        (x q : ℕ) (ys : List ℕ)
        → Distinct less (x ∷ ys)
        → Shuffle (elements h) (x ∷ ys)
        → same less x e ≡ true
        → same less e q ≡ false
        → find_elem less ys q ≡ hash_find hash less h q
    unfolding find_elem
    others x q ys d p s n = elim (Bool-cases (same less x q)) [
      | inl t ↦ bool_clash n (key.transitive e x q (same_comm less e x ∙ s) t)
      | inr t ↦ sym (find-elements h (x ∷ ys) q w p ∙ rw t refl)
    ]

    -- A new element in front of others that are apart from it.
    find_new :
        (ys : List ℕ) (q : ℕ)
        → (same less e q ≡ false → find_elem less ys q ≡ hash_find hash less h q)
        → find_elem less (e ∷ ys) q ≡ update less e (some e) (hash_find hash less h) q
    unfolding find_elem
    find_new ys q rest = elim (Bool-cases (same less e q)) [
      | inl s ↦ rw s refl
      | inr s ↦ rw s (rest s)
    ]

    -- `hash_insert` on a valid table ends, returns what `hash_find` finds, keeps the table valid, and adds the
    -- element to the map if there was none.
    pub hash_insert-ok :
        (h' : Hash) × (hash_insert hash less mem h e ≡ some (hash_find hash less h e, h'))
        × IsTable hash less h'
        × ((q : ℕ) → hash_find hash less h' q ≡ insert_new less e (hash_find hash less h) q)
    unfolding hash_find sought
    hash_insert-ok = elim (Option-cases sought) [
      | inl n ↦
          let (h', r, t, f) =
            rehashed mem (insert_elem hash h e) (e ∷ elements h)
              (insert_elem-IsSpread hash h e w.spread) (insert_elem-Shuffle hash h e w.spread)
              (absent n, w.distinct) in
          (
            h',
            insert_if_none hash less mem h e n
                ∙ ap (returning none) r
                ∙ ap (λ o. some (o, h')) (sym n),
            t,
            λ q.
                f q
                ∙ find_new (elements h) q (λ _. sym (hash_find-elements h q w))
                ∙ sym (insert_new-none less e q (hash_find hash less h) n),
          )
      | inr (x, s) ↦
          let (h', r, t, f) = rehashed mem h (elements h) w.spread (stay _) w.distinct in
          (
            h',
            insert_if_some hash less mem h e x s
                ∙ ap (returning (some x)) r
                ∙ ap (λ o. some (o, h')) (sym s),
            t,
            λ q.
                f q
                ∙ sym (hash_find-elements h q w)
                ∙ sym (insert_new-some less e q x (hash_find hash less h) s),
          )
    ]

    -- The same of `hash_replace`, which sets the map at the element.
    pub hash_replace-ok :
        (h' : Hash) × (hash_replace hash less mem h e ≡ some (hash_find hash less h e, h'))
        × IsTable hash less h'
        × ((q : ℕ) → hash_find hash less h' q ≡ update less e (some e) (hash_find hash less h) q)
    unfolding hash_find sought
    hash_replace-ok = elim (Option-cases sought) [
      | inl n ↦
          let (h', r, t, f) =
            rehashed mem (insert_elem hash h e) (e ∷ elements h)
              (insert_elem-IsSpread hash h e w.spread) (insert_elem-Shuffle hash h e w.spread)
              (absent n, w.distinct) in
          (
            h',
            replace_if_none hash less mem h e n
                ∙ ap (returning none) r
                ∙ ap (λ o. some (o, h')) (sym n),
            t,
            λ q. f q ∙ find_new (elements h) q (λ _. sym (hash_find-elements h q w)),
          )
      | inr (x, s) ↦
          let (g, g_eq, g_spread, d, p, x_e) = taken_out x s in
          let (h', r, t, f) =
            rehashed mem (insert_elem hash g e) (e ∷ elements g)
              (insert_elem-IsSpread hash g e g_spread) (insert_elem-Shuffle hash g e g_spread)
              (Apart-same x e (elements g) x_e d.0, d.1) in
          (
            h',
            replace_if_some hash less mem h e x s
                ∙ ap (λ y. returning (some x) (rehash hash mem (insert_elem hash y e))) (sym g_eq)
                ∙ ap (returning (some x)) r
                ∙ ap (λ o. some (o, h')) (sym s),
            t,
            λ q. f q ∙ find_new (elements g) q (others x q (elements g) d p x_e),
          )
    ]

    -- The same of `hash_delete`, which clears the map at the element.
    pub hash_delete-ok :
        (h' : Hash) × (hash_delete hash less mem h e ≡ some (hash_find hash less h e, h'))
        × IsTable hash less h'
        × ((q : ℕ) → hash_find hash less h' q ≡ update less e none (hash_find hash less h) q)
    unfolding hash_find sought
    hash_delete-ok = elim (Option-cases sought) [
      | inl n ↦ (
        h,
        delete_if_none hash less mem h e n ∙ ap (λ o. some (o, h)) (sym n),
        w,
        λ q. elim (Bool-cases (same less e q)) [
          | inl s ↦ rw s (
              hash_find-elements h q w
              ∙ find-Apart less (elements h) q (Apart-same e q (elements h) s (absent n)))
          | inr s ↦ rw s refl
        ],
      )
      | inr (x, s) ↦
          let (g, g_eq, g_spread, d, p, x_e) = taken_out x s in
          let (h', r, t, f) = rehashed mem g (elements g) g_spread (stay _) d.1 in
          (
            h',
            delete_if_some hash less mem h e x s
                ∙ ap (λ y. returning (some x) (rehash hash mem y)) (sym g_eq)
                ∙ ap (returning (some x)) r
                ∙ ap (λ o. some (o, h')) (sym s),
            t,
            λ q. f q ∙ elim (Bool-cases (same less e q)) [
              | inl z ↦ rw z (
                  find-Apart less (elements g) q
                    (Apart-same x q (elements g) (key.transitive x e q x_e z) d.0))
              | inr z ↦ rw z (others x q (elements g) d p x_e z)
            ],
          )
    ]
