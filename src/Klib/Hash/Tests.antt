-- ===== src/Klib/Hash/Tests.antt =====
-- Runs of a table whose elements are numbers with the key in their two lowest digits.
use project2_group.Base.{
  ◌⊎◌, ℕ, ◌%◌, ◌/◌, ◌^◌, ◌*◌, ◌<◌, ◌≤◌, ◌≡◌, refl, Bool, true, false, none, some, List, [], ◌∷◌,
  ltb, arith,
}
use project2_group.Klib.Hash.{Hash, hash_init, hash_find, hash_bytes, hash_string, new_bucket_cnt}
use project2_group.Klib.Hash.Size.{new_bucket_cnt_lem}
use project2_group.Klib.Hash.Finding.{IsKey}
use project2_group.Klib.Hash.Table.{IsTable}
use project2_group.Klib.Hash.Refinement.{
  Call, insert, replace, delete, run_calls, map_answers, map_run, run_calls_refines, init-IsTable,
}

abbrev key : ℕ → ℕ
key e = e % 100

abbrev less_key : ℕ → ℕ → Bool
less_key a b = ltb (a % 100) (b % 100)

key-IsKey : IsKey key less_key
key-IsKey = record {
  irreflexive = λ a. ground arith;
  transitive = λ a b c h k. ground arith;
  respects = λ a b h. ground arith;
}

abbrev empty_table : Hash
empty_table = record { elem_cnt = 0; bucket_cnt = 4; buckets = [] ∷ [] ∷ [] ∷ [] ∷ [] }

-- 105 is the same as 5, so it is not inserted, but it replaces it.
abbrev calls : List Call
calls = insert true 5 ∷ insert true 105 ∷ replace false 105 ∷ insert true 6 ∷ delete true 206 ∷ []

answers_test : map_answers less_key calls (λ q. none) ≡ none ∷ some 5 ∷ some 5 ∷ none ∷ some 6 ∷ []
answers_test = refl

run_calls_refines_example :
    (h' : Hash) × (run_calls key less_key calls empty_table
      ≡ some (map_answers less_key calls (hash_find key less_key empty_table), h'))
    × IsTable key less_key h'
    × (hash_find key less_key h' ≡ map_run less_key calls (hash_find key less_key empty_table))
unfolding hash_init
run_calls_refines_example =
    run_calls_refines key less_key key-IsKey calls empty_table
      (init-IsTable key less_key key-IsKey empty_table refl)

new_bucket_cnt_lem_example :
    (k : ℕ) × (new_bucket_cnt 27 ≡ some (2 ^ k))
    × (4 ≤ 2 ^ k)
    × ((27 < 8) ⊎ (2 ^ k ≤ 27 / 2))
    × (27 / 2 < 2 * 2 ^ k)
new_bucket_cnt_lem_example = new_bucket_cnt_lem 27

hash_string_test : hash_string (1 ∷ 2 ∷ 0 ∷ 3 ∷ []) ≡ some (hash_bytes (1 ∷ 2 ∷ []))
unfolding hash_string hash_bytes
hash_string_test = refl
