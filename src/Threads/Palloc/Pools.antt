-- ===== src/Threads/Palloc/Pools.antt =====
-- `palloc_get_multiple`: the pages that it gives.
use project2_group.Base.{
  ℕ, ◌+◌, ◌*◌, ◌<◌, ◌≤◌, ◌≡◌, ap, Bool, true, false, Run, ok, panic, ◌==◌, if◌then◌else◌, arith,
  ne_test,
}
use project2_group.Klib.Bitmap.{Bitmap, bitmap_error}
use project2_group.Klib.Bitmap.View.{bit, IsValid}
use project2_group.Klib.Bitmap.Ranges.{IsSetRange, Uniform}
use project2_group.Klib.Bitmap.Scan.{
  IsFlip, NoGroup, found, missing, flipped, no_group, bitmap_scan_and_flip_lem,
}
use project2_group.Threads.Palloc.{
  Pool, Allocator, pool_of, with_map, has, pal_assert, pal_zero, pal_user, pgsize, pg_ofs, pg_no,
  fill, obtained, palloc_get_multiple,
}

pub record IsPool (p : Pool) : Type 0 where
  pub valid : IsValid p.used_map
  pub aligned : pg_ofs p.base ≡ 0
  pub nonnull : 0 < p.base

-- The pools are in order, and the pages of the kernel's lie before those of the user's.
pub record IsAllocator (p : Allocator) : Type 0 where
  pub kernel_pool : IsPool p.kernel_pool
  pub user_pool : IsPool p.user_pool
  pub apart : pg_no p.kernel_pool.base + p.kernel_pool.used_map.bit_cnt ≤ pg_no p.user_pool.base

-- What a call for pages may give: the first run of free pages, which are marked and, if asked for, zeroed; or, where
-- there is none, a null pointer or a PANIC, as asked for.
pub data IsGet (flags page_cnt : ℕ) (user : Bool) (p : Allocator)
    : Run (ℕ × Allocator) → Type 0 where
  given :
      (page_idx : ℕ) (m : Bitmap)
      → page_idx + page_cnt ≤ (pool_of user p).used_map.bit_cnt
      → Uniform (bit (pool_of user p).used_map) page_idx page_cnt false
      → IsSetRange (pool_of user p).used_map m page_idx (page_idx + page_cnt) true
      → NoGroup (pool_of user p).used_map 0 page_idx page_cnt false
      → IsGet flags page_cnt user p (
          ok (
            (pool_of user p).base + 4096 * page_idx,
            if has flags pal_zero
                then fill
                    ((pool_of user p).base + 4096 * page_idx)
                    0
                    (4096 * page_cnt)
                    (with_map user m p)
                else with_map user m p,
          ))
  refused :
      ((i : ℕ)
        → i + page_cnt ≤ (pool_of user p).used_map.bit_cnt
        → ¬ Uniform (bit (pool_of user p).used_map) i page_cnt false)
      → IsGet flags page_cnt user p (if has flags pal_assert then panic else ok (0, p))

pub selected-IsPool : (user : Bool) (p : Allocator) → IsAllocator p → IsPool (pool_of user p)
selected-IsPool true p w = w.user_pool
selected-IsPool false p w = w.kernel_pool

same_map :
    (user : Bool) (p : Allocator) (m : Bitmap)
    → m ≡ (pool_of user p).used_map
    → with_map user m p ≡ p
same_map true p m e = ap (λ n. record p { user_pool = record p.user_pool { used_map = n } }) e
same_map false p m e = ap (λ n. record p { kernel_pool = record p.kernel_pool { used_map = n } }) e

flip-IsGet :
    (flags page_cnt : ℕ) (user : Bool) (p : Allocator) (r : ℕ) (m : Bitmap)
    → IsPool (pool_of user p)
    → IsFlip (pool_of user p).used_map 0 page_cnt false r m
    → IsGet flags page_cnt user p (
        obtained flags page_cnt
          (if r == bitmap_error then 0 else (pool_of user p).base + pgsize * r)
          (with_map user m p))
unfolding obtained
flip-IsGet flags page_cnt user p r m w (flipped n (missing e all) lo u s) = absurd (n e)
flip-IsGet flags page_cnt user p r m w (flipped n (found start fits free before) lo u s) =
    let nonnull = w.nonnull in
    let some_page : ((pool_of user p).base + 4096 * r == 0) ≡ false = ground arith in
    rw (ne_test r bitmap_error n, some_page) (given r m fits free s before)
flip-IsGet flags page_cnt user p r m w (no_group e (found start fits free before) same) =
    let small = w.valid.small in absurd (omega (arith, e, small, fits))
flip-IsGet flags page_cnt user p r m w (no_group e (missing e' all) same) =
    rw (e, same_map user p m same) (refused (λ i h. all i (omega arith) h))

-- With the pools in order and a number of pages other than 0: `palloc_get_multiple` on the pool that the flags name gives
-- the first run of free pages, marks exactly those in its map, and zeroes exactly those if asked to; or there is no
-- such run, and it panics if asked to and else returns a null pointer and changes nothing.
pub palloc_get_multiple_lem :
    (flags page_cnt : ℕ) (p : Allocator)
    → IsAllocator p
    → 0 < page_cnt
    → IsGet flags page_cnt (has flags pal_user) p (palloc_get_multiple flags page_cnt p)
unfolding palloc_get_multiple
palloc_get_multiple_lem flags page_cnt p w h =
    let user = has flags pal_user in
    let pool = selected-IsPool user p w in
    let (r, m, e, f) =
      bitmap_scan_and_flip_lem (pool_of user p).used_map 0 page_cnt false pool.valid
        (omega arith) in
    rw (ne_test page_cnt 0 (λ z. omega arith), e) (flip-IsGet flags page_cnt user p r m pool f)
