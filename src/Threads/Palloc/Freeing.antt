-- ===== src/Threads/Palloc/Freeing.antt =====
-- `palloc_free_multiple`, and that it undoes `palloc_get_multiple`.
use project2_group.Base.{
  ℕ, ◌+◌, ◌-◌, ◌*◌, ◌<◌, ◌≤◌, ◌≡◌, ◌≢◌, refl, sym, ap, ◌∙◌, subst, inl, inr, Bool, true, false, Run,
  ok, panic, ◌==◌, ◌||◌, arith, Bool-cases, ok-injective,
}
use project2_group.Klib.Bitmap.{Bitmap}
use project2_group.Klib.Bitmap.View.{bit, IsValid}
use project2_group.Klib.Bitmap.Ranges.{IsSetRange, Uniform, bitmap_all-ok, bitmap_set_multiple-ok}
use project2_group.Threads.Palloc.{
  Pool, Allocator, pool_of, with_map, has, pal_assert, pal_zero, pal_user, pg_ofs, pg_no, fill,
  page_from_pool, free_from, palloc_get_multiple, palloc_free_multiple,
}
use project2_group.Threads.Palloc.Pools.{
  IsPool, IsAllocator, IsGet, given, refused, selected-IsPool, palloc_get_multiple_lem,
}

-- A pool has the page with the index `i`.
own_page :
    (p : Pool) (i : ℕ)
    → IsPool p
    → i < p.used_map.bit_cnt
    → page_from_pool p (p.base + 4096 * i) ≡ true
own_page p i w h = let a = w.aligned in ground arith

-- The kernel's pool does not have the pages of the user's pool.
other_page :
    (p : Allocator) (i : ℕ)
    → IsAllocator p
    → page_from_pool p.kernel_pool (p.user_pool.base + 4096 * i) ≡ false
other_page p i w = let a = w.apart in ground arith

select :
    (user : Bool) (p : Allocator) (i page_cnt : ℕ)
    → IsAllocator p
    → i < (pool_of user p).used_map.bit_cnt
    → 0 < page_cnt
    → palloc_free_multiple ((pool_of user p).base + 4096 * i) page_cnt p
      ≡ free_from user ((pool_of user p).base + 4096 * i) page_cnt p
unfolding palloc_free_multiple
select true p i page_cnt w h c =
    let a = w.user_pool.aligned in
    let n = w.user_pool.nonnull in
    let whole : (pg_ofs (p.user_pool.base + 4096 * i) == 0) ≡ true = ground arith in
    let page : ((p.user_pool.base + 4096 * i == 0) || (page_cnt == 0)) ≡ false = ground arith in
    rw (whole, page, other_page p i w, own_page p.user_pool i w.user_pool h) refl
select false p i page_cnt w h c =
    let a = w.kernel_pool.aligned in
    let n = w.kernel_pool.nonnull in
    let whole : (pg_ofs (p.kernel_pool.base + 4096 * i) == 0) ≡ true = ground arith in
    let page : ((p.kernel_pool.base + 4096 * i == 0) || (page_cnt == 0)) ≡ false = ground arith in
    rw (whole, page, own_page p.kernel_pool i w.kernel_pool h) refl

-- With the pools in order, pages of a pool that are all marked can be freed: that unmarks exactly them.
palloc_free_multiple_lem :
    (user : Bool) (p : Allocator) (i page_cnt : ℕ)
    → IsAllocator p
    → 0 < page_cnt
    → i + page_cnt ≤ (pool_of user p).used_map.bit_cnt
    → Uniform (bit (pool_of user p).used_map) i page_cnt true
    → (m : Bitmap) × (palloc_free_multiple ((pool_of user p).base + 4096 * i) page_cnt p
        ≡ ok (with_map user m (fill ((pool_of user p).base + 4096 * i) 204 (4096 * page_cnt) p)))
      × IsSetRange (pool_of user p).used_map m i (i + page_cnt) false
unfolding free_from
palloc_free_multiple_lem user p i page_cnt w c h u =
    let pool = selected-IsPool user p w in
    let a = pool.aligned in
    let (m, e, s) =
      bitmap_set_multiple-ok (pool_of user p).used_map i page_cnt false pool.valid h in
    let idx : pg_no ((pool_of user p).base + 4096 * i) - pg_no (pool_of user p).base ≡ i =
      omega arith in
    (
      m,
      rw
          (
            select user p i page_cnt w (omega arith) c,
            idx,
            bitmap_all-ok (pool_of user p).used_map i page_cnt pool.valid h u,
            e,
          )
          refl,
      s,
    )

get_nothing :
    (flags page_cnt : ℕ) (p : Allocator)
    → (page_cnt == 0) ≡ true
    → palloc_get_multiple flags page_cnt p ≡ ok (0, p)
unfolding palloc_get_multiple
get_nothing flags page_cnt p z = rw z refl

-- Both maps have the same bits.
pub record IsSame (p q : Allocator) : Type 0 where
  pub kernel_bits : (j : ℕ) → bit q.kernel_pool.used_map j ≡ bit p.kernel_pool.used_map j
  pub user_bits : (j : ℕ) → bit q.user_pool.used_map j ≡ bit p.user_pool.used_map j

marked-IsAllocator :
    (user : Bool) (p : Allocator) (m : Bitmap)
    → IsAllocator p
    → IsValid m
    → m.bit_cnt ≡ (pool_of user p).used_map.bit_cnt
    → IsAllocator (with_map user m p)
marked-IsAllocator true p m w v e = record {
  kernel_pool = w.kernel_pool;
  user_pool = record { valid = v; aligned = w.user_pool.aligned; nonnull = w.user_pool.nonnull };
  apart = w.apart;
}
marked-IsAllocator false p m w v e = record {
  kernel_pool = record {
    valid = v;
    aligned = w.kernel_pool.aligned;
    nonnull = w.kernel_pool.nonnull;
  };
  user_pool = w.user_pool;
  apart = let a = w.apart in omega (arith, e);
}

elsewhere :
    (memory : ℕ → ℕ) (p : Allocator) → IsAllocator p → IsAllocator (record p { memory = memory })
elsewhere memory p w = record {
  kernel_pool = w.kernel_pool;
  user_pool = w.user_pool;
  apart = w.apart;
}

-- Pages that were free, were marked, and are freed again, whatever memory holds.
freed_again :
    (user : Bool) (p : Allocator) (i page_cnt : ℕ) (m : Bitmap) (memory : ℕ → ℕ)
    → IsAllocator p
    → 0 < page_cnt
    → i + page_cnt ≤ (pool_of user p).used_map.bit_cnt
    → Uniform (bit (pool_of user p).used_map) i page_cnt false
    → IsSetRange (pool_of user p).used_map m i (i + page_cnt) true
    → (q : Allocator) × (palloc_free_multiple
          ((pool_of user p).base + 4096 * i)
          page_cnt
          (record (with_map user m p) { memory = memory })
        ≡ ok q)
      × IsSame p q
freed_again true p i page_cnt m memory w c h u s =
    let p' : Allocator = record (with_map true m p) { memory = memory } in
    let w' : IsAllocator p' =
      elsewhere memory (with_map true m p) (marked-IsAllocator true p m w s.valid s.same_size) in
    let (m', e, s') =
      palloc_free_multiple_lem true p' i page_cnt w' c (omega (arith, s.same_size))
        (λ j lo hi. ground (arith, s.bits j)) in
    (
      _,
      e,
      record { kernel_bits = λ j. refl; user_bits = λ j. ground (arith, s'.bits j, s.bits j, u j) },
    )
freed_again false p i page_cnt m memory w c h u s =
    let p' : Allocator = record (with_map false m p) { memory = memory } in
    let w' : IsAllocator p' =
      elsewhere memory (with_map false m p) (marked-IsAllocator false p m w s.valid s.same_size) in
    let (m', e, s') =
      palloc_free_multiple_lem false p' i page_cnt w' c (omega (arith, s.same_size))
        (λ j lo hi. ground (arith, s.bits j)) in
    (
      _,
      e,
      record { kernel_bits = λ j. ground (arith, s'.bits j, s.bits j, u j); user_bits = λ j. refl },
    )

panics : (r : ℕ × Allocator) → ¬ (panic ≡ ok r)
panics r e = cc

-- What was obtained can be freed.
Freed : ℕ → Allocator → ℕ × Allocator → Type 0
Freed page_cnt p r = (q : Allocator) × (palloc_free_multiple r.0 page_cnt r.1 ≡ ok q) × IsSame p q

get-Freed :
    (flags page_cnt : ℕ) (user : Bool) (p : Allocator) (pages : ℕ) (p' : Allocator)
    (x : Run (ℕ × Allocator))
    → IsAllocator p
    → 0 < page_cnt
    → pages ≢ 0
    → IsGet flags page_cnt user p x
    → x ≡ ok (pages, p')
    → Freed page_cnt p (pages, p')
unfolding Freed
get-Freed flags page_cnt user p pages p' _ w c n (given i m h u s before) e =
    subst (Freed page_cnt p) (ok-injective e) (elim (Bool-cases (has flags pal_zero)) [
      | inl z ↦ rw z (
          freed_again user p i page_cnt m
            (fill ((pool_of user p).base + 4096 * i) 0 (4096 * page_cnt) (with_map user m p)).memory
            w c h u s)
      | inr z ↦ rw z (freed_again user p i page_cnt m (with_map user m p).memory w c h u s)
    ])
get-Freed flags page_cnt user p pages p' _ w c n (refused all) e =
    elim (Bool-cases (has flags pal_assert)) [
      | inl z ↦ absurd (panics (pages, p') (rw z at e))
      | inr z ↦ absurd (n (sym (ap (λ r. r.0) (ok-injective (rw z at e)))))
    ]

-- With the pools in order, the pages that `palloc_get_multiple` gave can be freed with `palloc_free_multiple`, and the
-- maps of both pools then have the bits they had before.
pub free-palloc_get :
    (flags page_cnt : ℕ) (p : Allocator) (pages : ℕ) (p' : Allocator)
    → IsAllocator p
    → palloc_get_multiple flags page_cnt p ≡ ok (pages, p')
    → pages ≢ 0
    → (q : Allocator) × (palloc_free_multiple pages page_cnt p' ≡ ok q) × IsSame p q
unfolding Freed
free-palloc_get flags page_cnt p pages p' w e n = elim (Bool-cases (page_cnt == 0)) [
  | inl z ↦
      absurd (n (sym (ap (λ r. r.0) (ok-injective (sym (get_nothing flags page_cnt p z) ∙ e)))))
  | inr z ↦
      let c : 0 < page_cnt = ground arith in
      get-Freed flags page_cnt (has flags pal_user) p pages p' _ w c n
        (palloc_get_multiple_lem flags page_cnt p w c) e
]
