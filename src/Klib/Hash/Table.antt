-- ===== src/Klib/Hash/Table.antt =====
-- The table's invariant, and what each operation does to the elements.
use project2_group.Base.{
  ℕ, ◌^◌, ◌<◌, ◌≡◌, refl, sym, ◌∙◌, inl, inr, Bool, true, false, some, List, [], ◌∷◌, ◌==◌,
  if◌then◌else◌, arith, Bool-cases, get_or, replicate, length, length-set, length-replicate,
  length-Shuffle, Shuffle, stay, ◌▸◌,
}
use mathlib.Core.List.{append-nil}
use project2_group.Klib.Hash.{
  Hash, bucket_idx, move_buckets, insert_elem, remove_elem, resize, rehash,
}
use project2_group.Klib.Hash.Size.{new_bucket_cnt_lem}
use project2_group.Klib.Hash.Elements.{
  concat, concat-replicate, Mem, push-Shuffle, remove-Shuffle, bucket_idx-lt, length-move_buckets,
  move_buckets-Shuffle,
}
use project2_group.Klib.Hash.Finding.{Distinct}
use project2_group.Klib.Hash.Placing.{
  Placed, push-Placed, remove-Placed, move_buckets-Placed, empty-Placed,
}

abbrev pub elements : Hash → List ℕ
elements h = concat h.buckets

-- What holds of the buckets, whatever the count says.
pub record IsSpread (hash : ℕ → ℕ) (h : Hash) : Type 0 where
  pub some_bucket : 0 < h.bucket_cnt
  pub size : length h.buckets ≡ h.bucket_cnt
  pub placed : Placed hash h.bucket_cnt 0 h.buckets
  pub counted : h.elem_cnt ≡ length (elements h)

-- All elements are where they are sought, are counted, and are different.
pub record IsTable (hash : ℕ → ℕ) (less : ℕ → ℕ → Bool) (h : Hash) : Type 0 where
  pub spread : IsSpread hash h
  pub distinct : Distinct less (elements h)

module _ (hash : ℕ → ℕ) where
  pub insert_elem-IsSpread :
      (h : Hash) (e : ℕ) → IsSpread hash h → IsSpread hash (insert_elem hash h e)
  unfolding insert_elem
  insert_elem-IsSpread h e w =
      let room : bucket_idx hash h.bucket_cnt e < length h.buckets =
        omega (arith, bucket_idx-lt hash h.bucket_cnt e w.some_bucket, w.size) in
      record {
        some_bucket = w.some_bucket;
        size = length-set h.buckets _ _ ∙ w.size;
        placed = push-Placed hash h.bucket_cnt h.buckets e w.placed;
        counted = omega (
          arith,
          w.counted,
          length-Shuffle (push-Shuffle h.buckets (bucket_idx hash h.bucket_cnt e) e room),
        );
      }

  pub insert_elem-Shuffle :
      (h : Hash) (e : ℕ)
      → IsSpread hash h
      → Shuffle (elements (insert_elem hash h e)) (e ∷ elements h)
  unfolding insert_elem
  insert_elem-Shuffle h e w =
      push-Shuffle h.buckets (bucket_idx hash h.bucket_cnt e) e
        (omega (arith, bucket_idx-lt hash h.bucket_cnt e w.some_bucket, w.size))

  pub remove_elem-Shuffle :
      (h : Hash) (i x : ℕ)
      → Mem x (get_or h.buckets i [])
      → Shuffle (x ∷ elements (remove_elem h i x)) (elements h)
  unfolding remove_elem
  remove_elem-Shuffle h i x m = remove-Shuffle h.buckets i x m

  pub remove_elem-IsSpread :
      (h : Hash) (i x : ℕ)
      → Mem x (get_or h.buckets i [])
      → IsSpread hash h
      → IsSpread hash (remove_elem h i x)
  unfolding remove_elem
  remove_elem-IsSpread h i x m w = record {
    some_bucket = w.some_bucket;
    size = length-set h.buckets _ _ ∙ w.size;
    placed = remove-Placed hash h.bucket_cnt h.buckets i x w.placed;
    counted = omega (arith, w.counted, length-Shuffle (remove-Shuffle h.buckets i x m));
  }

  resize-ok :
      (mem : Bool) (n : ℕ) (h : Hash)
      → 0 < n
      → IsSpread hash h
      → IsSpread hash (resize hash mem n h) × Shuffle (elements (resize hash mem n h)) (elements h)
  resize-ok mem n h pos w = elim (Bool-cases (n == h.bucket_cnt)) [
    | inl e ↦ rw e (w, stay _)
    | inr e ↦ rw e (moved mem)
  ]
    where
      empty : List (List ℕ)
      empty = replicate n []

      same_elements : Shuffle (concat (move_buckets hash n h.buckets empty)) (elements h)
      same_elements =
          move_buckets-Shuffle hash n h.buckets empty pos (length-replicate n [])
          ▸ rw (concat-replicate n, append-nil (elements h)) (stay _)

      moved :
          (m : Bool)
          → IsSpread hash (
              if m
              then record h { bucket_cnt = n; buckets = move_buckets hash n h.buckets empty }
              else h)
            × Shuffle
                (elements (
                  if m
                  then record h { bucket_cnt = n; buckets = move_buckets hash n h.buckets empty }
                  else h))
                (elements h)
      moved true = (
        record {
          some_bucket = pos;
          size = length-move_buckets hash n h.buckets empty ∙ length-replicate n [];
          placed = move_buckets-Placed hash n h.buckets empty (empty-Placed hash n 0 n);
          counted = w.counted ∙ sym (length-Shuffle same_elements);
        },
        same_elements,
      )
      moved false = (w, stay _)

  -- `rehash` always ends, and leaves the elements as they are.
  pub rehash-ok :
      (mem : Bool) (h : Hash)
      → IsSpread hash h
      → (h' : Hash) × (rehash hash mem h ≡ some h')
        × IsSpread hash h'
        × Shuffle (elements h') (elements h)
  unfolding rehash
  rehash-ok mem h w =
      let (k, e, four, _, _) = new_bucket_cnt_lem h.elem_cnt in
      let (w', p) = resize-ok mem (2 ^ k) h (omega (arith, four)) w in
      (resize hash mem (2 ^ k) h, rw (e, rehash) refl, w', p)
