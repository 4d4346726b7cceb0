-- ===== src/Klib/Hash/Branches.antt =====
-- `hash_insert`, `hash_replace` and `hash_delete` as what the search finds.
use project2_group.Base.{ℕ, ◌≡◌, refl, Bool, none, some}
use project2_group.Klib.Hash.{
  Hash, find_elem, bucket_idx, find_bucket, insert_elem, remove_elem, rehash, returning,
  hash_insert, hash_replace, hash_delete,
}

module _ (hash : ℕ → ℕ) (less : ℕ → ℕ → Bool) (mem : Bool) (h : Hash) (e : ℕ) where
  pub insert_if_none :
      find_elem less (find_bucket hash h e) e ≡ none
      → hash_insert hash less mem h e ≡ returning none (rehash hash mem (insert_elem hash h e))
  unfolding hash_insert
  insert_if_none n = rw (n, hash_insert) refl

  pub insert_if_some :
      (x : ℕ)
      → find_elem less (find_bucket hash h e) e ≡ some x
      → hash_insert hash less mem h e ≡ returning (some x) (rehash hash mem h)
  unfolding hash_insert
  insert_if_some x n = rw (n, hash_insert) refl

  pub replace_if_none :
      find_elem less (find_bucket hash h e) e ≡ none
      → hash_replace hash less mem h e ≡ returning none (rehash hash mem (insert_elem hash h e))
  unfolding hash_replace
  replace_if_none n = rw (n, hash_replace) refl

  pub replace_if_some :
      (x : ℕ)
      → find_elem less (find_bucket hash h e) e ≡ some x
      → hash_replace hash less mem h e
        ≡ returning (some x) (
            rehash hash mem (insert_elem hash (remove_elem h (bucket_idx hash h.bucket_cnt e) x) e))
  unfolding hash_replace
  replace_if_some x n = rw (n, hash_replace) refl

  pub delete_if_none :
      find_elem less (find_bucket hash h e) e ≡ none
      → hash_delete hash less mem h e ≡ some (none, h)
  unfolding hash_delete
  delete_if_none n = rw (n, hash_delete) refl

  pub delete_if_some :
      (x : ℕ)
      → find_elem less (find_bucket hash h e) e ≡ some x
      → hash_delete hash less mem h e
        ≡ returning (some x) (rehash hash mem (remove_elem h (bucket_idx hash h.bucket_cnt e) x))
  unfolding hash_delete
  delete_if_some x n = rw (n, hash_delete) refl
