-- ===== src/Threads/Palloc.antt =====
-- threads/palloc.c and the page arithmetic of threads/vaddr.h: the two pools of pages. An address is a number, 0 the null
-- pointer, and memory gives the byte at each address. A pool's lock is held around the search of its map only, so
-- each function is one step.
pub mod Pools
pub mod Freeing
mod Tests
use project2_group.Base.{
  ℕ, ◌+◌, ◌-◌, ◌*◌, ◌/◌, ◌%◌, Bool, true, false, not, Run, ok, panic, ◌>>=◌, ◌>>◌, assert, leb, ltb,
  ◌==◌, ◌&&◌, ◌||◌, if◌then◌else◌, bit_and,
}
use project2_group.Klib.Bitmap.{
  Bitmap, bitmap_error, bitmap_size, bitmap_scan_and_flip, bitmap_all, bitmap_set_multiple,
}

abbrev pub pgsize : ℕ
pgsize = 4096

abbrev pub pg_no : ℕ → ℕ
pg_no va = va / 4096

abbrev pub pg_ofs : ℕ → ℕ
pg_ofs va = va % 4096

abbrev pub pal_assert : ℕ
pal_assert = 1

abbrev pub pal_zero : ℕ
pal_zero = 2

abbrev pub pal_user : ℕ
pal_user = 4

abbrev pub has : ℕ → ℕ → Bool
has flags flag = not (bit_and flags flag == 0)

pub record Pool : Type 0 where
  pub used_map : Bitmap
  pub base : ℕ

pub record Allocator : Type 0 where
  pub kernel_pool : Pool
  pub user_pool : Pool
  pub memory : ℕ → ℕ

abbrev pub pool_of : Bool → Allocator → Pool
pool_of true p = p.user_pool
pool_of false p = p.kernel_pool

abbrev pub with_map : Bool → Bitmap → Allocator → Allocator
with_map true m p = record p { user_pool = record p.user_pool { used_map = m } }
with_map false m p = record p { kernel_pool = record p.kernel_pool { used_map = m } }

-- `memset`.
abbrev pub fill : ℕ → ℕ → ℕ → Allocator → Allocator
fill start value size p = record p {
  memory = λ q. if leb start q && ltb q (start + size) then value else p.memory q;
}

-- The end of `palloc_get_multiple`, from the test of `pages` on.
unfoldable pub obtained : ℕ → ℕ → ℕ → Allocator → Run (ℕ × Allocator)
obtained flags page_cnt pages p =
    if pages == 0
    then (if has flags pal_assert then panic else ok (0, p))
    else ok (pages, if has flags pal_zero then fill pages 0 (pgsize * page_cnt) p else p)

unfoldable pub palloc_get_multiple : ℕ → ℕ → Allocator → Run (ℕ × Allocator)
palloc_get_multiple flags page_cnt p =
    let user = has flags pal_user in
    if page_cnt == 0 then ok (0, p) else (do
      (page_idx, used_map') ← bitmap_scan_and_flip (pool_of user p).used_map 0 page_cnt false
      obtained flags page_cnt
          (if page_idx == bitmap_error then 0 else (pool_of user p).base + pgsize * page_idx)
          (with_map user used_map' p))

unfoldable pub palloc_get_page : ℕ → Allocator → Run (ℕ × Allocator)
palloc_get_page flags p = palloc_get_multiple flags 1 p

abbrev pub page_from_pool : Pool → ℕ → Bool
page_from_pool pool page =
    leb (pg_no pool.base) (pg_no page)
    && ltb (pg_no page) (pg_no pool.base + bitmap_size pool.used_map)

-- The end of `palloc_free_multiple`, with the pool known.
unfoldable pub free_from : Bool → ℕ → ℕ → Allocator → Run Allocator
free_from user pages page_cnt p = do
  let pool = pool_of user p
  let page_idx = pg_no pages - pg_no pool.base
  let p' = fill pages 204 (pgsize * page_cnt) p
  all ← bitmap_all pool.used_map page_idx page_cnt
  assert all
      >> (bitmap_set_multiple pool.used_map page_idx page_cnt false >>= λ m.
          ok (with_map user m p'))

-- NOT_REACHED is a PANIC.
unfoldable pub palloc_free_multiple : ℕ → ℕ → Allocator → Run Allocator
palloc_free_multiple pages page_cnt p =
    assert (pg_ofs pages == 0)
    >> (if (pages == 0) || (page_cnt == 0)
        then ok p
        else if page_from_pool p.kernel_pool pages
        then free_from false pages page_cnt p
        else if page_from_pool p.user_pool pages
        then free_from true pages page_cnt p
        else panic)

unfoldable pub palloc_free_page : ℕ → Allocator → Run Allocator
palloc_free_page page p = palloc_free_multiple page 1 p
