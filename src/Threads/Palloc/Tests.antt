-- ===== src/Threads/Palloc/Tests.antt =====
-- Two pools of three and of two pages, with the first page of the kernel's used.
use project2_group.Base.{◌≡◌, refl, ok, [], ◌∷◌, arith, false}
use project2_group.Klib.Bitmap.{
  bitmap_scan_and_flip, bitmap_scan, bitmap_contains, bitmap_test, bitmap_set_multiple, bitmap_set,
}
use project2_group.Threads.Palloc.{Allocator, palloc_get_multiple, palloc_free_multiple, obtained}
use project2_group.Threads.Palloc.Pools.{IsAllocator, IsGet, palloc_get_multiple_lem}
use project2_group.Threads.Palloc.Freeing.{IsSame, free-palloc_get}

abbrev pools : Allocator
pools = record {
  kernel_pool = record { used_map = record { bit_cnt = 3; bits = 1 ∷ [] }; base = 8192 };
  user_pool = record { used_map = record { bit_cnt = 2; bits = 0 ∷ [] }; base = 40960 };
  memory = λ q. 7;
}

pools-IsAllocator : IsAllocator pools
pools-IsAllocator = record {
  kernel_pool = record {
    valid = record { elems = refl; small = omega arith };
    aligned = refl;
    nonnull = omega arith;
  };
  user_pool = record {
    valid = record { elems = refl; small = omega arith };
    aligned = refl;
    nonnull = omega arith;
  };
  apart = omega arith;
}

palloc_get_multiple_lem_example : IsGet 2 2 false pools (palloc_get_multiple 2 2 pools)
palloc_get_multiple_lem_example = palloc_get_multiple_lem 2 2 pools pools-IsAllocator (omega arith)

abbrev two_taken : Allocator
two_taken = record pools {
  kernel_pool = record { used_map = record { bit_cnt = 3; bits = 7 ∷ [] }; base = 8192 };
}

two_pages : palloc_get_multiple 0 2 pools ≡ ok (12288, two_taken)
unfolding palloc_get_multiple obtained bitmap_scan_and_flip bitmap_scan bitmap_contains bitmap_test
    bitmap_set_multiple bitmap_set
two_pages = refl

no_pages : palloc_get_multiple 4 3 pools ≡ ok (0, pools)
unfolding palloc_get_multiple obtained bitmap_scan_and_flip bitmap_scan
no_pages = refl

free-palloc_get_example :
    (q : Allocator) × (palloc_free_multiple 12288 2 two_taken ≡ ok q) × IsSame pools q
free-palloc_get_example =
    free-palloc_get 0 2 pools 12288 two_taken pools-IsAllocator two_pages (omega arith)
