-- ===== src/Klib/Hash.antt =====
-- lib/kernel/hash.c. A `struct hash_elem *` is a number; `hash` and `less` are the functions that the user
-- of the table gives, with `aux` applied. The arguments `mem` say whether `malloc` gives memory.
pub mod Size
pub mod Elements
pub mod Finding
pub mod Placing
pub mod Table
pub mod Branches
pub mod Operations
pub mod Refinement
mod Tests
use project2_group.Base.{
  ℕ, zero, suc, ◌+◌, ◌-◌, ◌*◌, ◌/◌, ◌%◌, ◌^◌, bit_and, bit_xor, Bool, true, false, not, Option,
  none, some, List, [], ◌∷◌, Run, ok, fault, ◌>>=◌, ltb, ◌==◌, ◌&&◌, if◌then◌else◌, get_or, set,
  replicate, length,
}
use project2_group.Klib.OrderedList.{list_remove}

pub record Hash : Type 0 where
  pub elem_cnt : ℕ
  pub bucket_cnt : ℕ
  pub buckets : List (List ℕ)

-- X with its lowest bit that is set turned off. `x - 1` of 0 is not 0 in C, but `x & (x - 1)` is.
unfoldable pub turn_off_least_1bit : ℕ → ℕ
turn_off_least_1bit x = bit_and x (x - 1)

unfoldable pub is_power_of_2 : ℕ → Bool
unfolding turn_off_least_1bit
is_power_of_2 x = not (x == 0) && (turn_off_least_1bit x == 0)

-- The loop of `rehash` that makes the bucket count a power of 2; `none` is a loop that does not end in `fuel`
-- rounds.
unfoldable pub round_down : ℕ → ℕ → Option ℕ
round_down zero n = if is_power_of_2 n then some n else none
round_down (suc fuel) n =
    let rest = round_down fuel (turn_off_least_1bit n) in if is_power_of_2 n then some n else rest

abbrev pub best_elems_per_bucket : ℕ
best_elems_per_bucket = 2

-- The number of buckets to use.
unfoldable pub new_bucket_cnt : ℕ → Option ℕ
new_bucket_cnt elem_cnt =
    let n = elem_cnt / best_elems_per_bucket in let m = if ltb n 4 then 4 else n in round_down m m

unfoldable pub hash_init : Bool → Option Hash
hash_init mem =
    if mem then some (record { elem_cnt = 0; bucket_cnt = 4; buckets = replicate 4 [] }) else none

-- With no destructor.
unfoldable pub hash_clear : Hash → Hash
hash_clear h = record h { elem_cnt = 0; buckets = replicate h.bucket_cnt [] }

abbrev pub hash_size : Hash → ℕ
hash_size h = h.elem_cnt

unfoldable pub hash_empty : Hash → Bool
hash_empty h = h.elem_cnt == 0

-- `list_push_front` on the bucket with index `i`.
abbrev pub push_bucket : List (List ℕ) → ℕ → ℕ → List (List ℕ)
push_bucket bs i e = set bs i (e ∷ get_or bs i [])

-- `e` is in the bucket with index `i`.
unfoldable pub remove_elem : Hash → ℕ → ℕ → Hash
remove_elem h i e = record h {
  elem_cnt = h.elem_cnt - 1;
  buckets = set h.buckets i (list_remove e (get_or h.buckets i []));
}

module _ (less : ℕ → ℕ → Bool) where
  -- The test of `find_elem`: neither element is less than the other.
  abbrev pub same : ℕ → ℕ → Bool
  same a b = not (less a b) && not (less b a)

  unfoldable pub find_elem : List ℕ → ℕ → Option ℕ
  find_elem [] e = none
  find_elem (x ∷ xs) e = if same x e then some x else find_elem xs e

module _ (hash : ℕ → ℕ) where
  -- The index of the bucket, for `n` buckets.
  abbrev pub bucket_idx : ℕ → ℕ → ℕ
  bucket_idx n e = bit_and (hash e) (n - 1)

  abbrev pub find_bucket : Hash → ℕ → List ℕ
  find_bucket h e = get_or h.buckets (bucket_idx h.bucket_cnt e) []

  unfoldable pub insert_elem : Hash → ℕ → Hash
  insert_elem h e = record h {
    elem_cnt = h.elem_cnt + 1;
    buckets = push_bucket h.buckets (bucket_idx h.bucket_cnt e) e;
  }

  -- The two loops of `rehash` that move the elements to the new buckets, `n` in number.
  unfoldable pub move_bucket : ℕ → List ℕ → List (List ℕ) → List (List ℕ)
  move_bucket n [] bs = bs
  move_bucket n (e ∷ es) bs = move_bucket n es (push_bucket bs (bucket_idx n e) e)

  unfoldable pub move_buckets : ℕ → List (List ℕ) → List (List ℕ) → List (List ℕ)
  move_buckets n [] bs = bs
  move_buckets n (old ∷ olds) bs = move_buckets n olds (move_bucket n old bs)

  abbrev pub resize : Bool → ℕ → Hash → Hash
  resize mem n h =
      if n == h.bucket_cnt
      then h
      else if mem
      then record h { bucket_cnt = n; buckets = move_buckets n h.buckets (replicate n []) }
      else h

  unfoldable pub rehash : Bool → Hash → Option Hash
  rehash mem h = elim (new_bucket_cnt h.elem_cnt) [ none ↦ none | some n ↦ some (resize mem n h) ]

-- What a function returns, and the table; `none` is a loop without end.
abbrev pub returning : Option ℕ → Option Hash → Option (Option ℕ × Hash)
returning old o = elim o [ none ↦ none | some h ↦ some (old, h) ]

module _ (hash : ℕ → ℕ) (less : ℕ → ℕ → Bool) where
  unfoldable pub hash_find : Hash → ℕ → Option ℕ
  hash_find h e = find_elem less (find_bucket hash h e) e

  unfoldable pub hash_insert : Bool → Hash → ℕ → Option (Option ℕ × Hash)
  hash_insert mem h e = elim (find_elem less (find_bucket hash h e) e) [
    | none ↦ returning none (rehash hash mem (insert_elem hash h e))
    | some x ↦ returning (some x) (rehash hash mem h)
  ]

  unfoldable pub hash_replace : Bool → Hash → ℕ → Option (Option ℕ × Hash)
  hash_replace mem h e = elim (find_elem less (find_bucket hash h e) e) [
    | none ↦ returning none (rehash hash mem (insert_elem hash h e))
    | some x ↦
        returning (some x)
          (rehash hash mem (insert_elem hash (remove_elem h (bucket_idx hash h.bucket_cnt e) x) e))
  ]

  unfoldable pub hash_delete : Bool → Hash → ℕ → Option (Option ℕ × Hash)
  hash_delete mem h e = elim (find_elem less (find_bucket hash h e) e) [
    | none ↦ some (none, h)
    | some x ↦
        returning (some x) (rehash hash mem (remove_elem h (bucket_idx hash h.bucket_cnt e) x))
  ]

abbrev pub fnv_32_prime : ℕ
fnv_32_prime = 16777619

abbrev pub fnv_32_basis : ℕ
fnv_32_basis = 2166136261

-- The loop of `hash_bytes`, on the bytes that are left.
unfoldable pub hash_loop : ℕ → List ℕ → ℕ
hash_loop h [] = h
hash_loop h (b ∷ bs) = hash_loop (bit_xor ((h * fnv_32_prime) % 2 ^ 32) b) bs

unfoldable pub hash_bytes : List ℕ → ℕ
unfolding hash_loop
hash_bytes buf = hash_loop fnv_32_basis buf

-- `none` is a string with no terminator in its object.
string_loop : ℕ → List ℕ → Option ℕ
string_loop h [] = none
string_loop h (b ∷ bs) =
    let rest = string_loop (bit_xor ((h * fnv_32_prime) % 2 ^ 32) b) bs in
    if b == 0 then some h else rest

unfoldable pub hash_string : List ℕ → Option ℕ
unfolding string_loop
hash_string s = string_loop fnv_32_basis s
