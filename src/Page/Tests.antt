-- ===== src/Page/Tests.antt =====
-- Runs of the page pool of src/arch/x86_64/mem/page.c, and the theorems at a concrete pool.
use clay_figure_kernel.Base.{◌*◌, ◌≡◌, refl, arith, some, success, done, add64, sub64, mul64}
use clay_figure_kernel.Sync.{spinlock_lock, spinlock_unlock}
use clay_figure_kernel.Bitmap.{
  bitmap_alloc, skip_full, search, count_run, bitmap_scan_test, bitmap_set, put_bit,
}
use clay_figure_kernel.Page.{
  pg_size, Mem, set_range, alloc_physical_page, alloc_physical_page_sub, free_physical_page,
}
use clay_figure_kernel.Page.Samples.{pool}
use clay_figure_kernel.Page.Range.{ones}
use clay_figure_kernel.Page.Alloc.{IsPool, Allocates, taken, alloc_physical_page-Allocates}
use clay_figure_kernel.Page.Free.{SamePool, free-alloc}

pool-IsPool : IsPool pool
unfolding ones
pool-IsPool = record {
  bitmap = omega arith;
  unlocked = refl;
  preempt_small = omega arith;
  pages_small = omega arith;
  accounted = omega arith;
}

alloc_two : alloc_physical_page pool 2 ≡ done (success, some 0x600000, taken pool 3 2)
unfolding alloc_physical_page alloc_physical_page_sub set_range bitmap_alloc skip_full search
    count_run bitmap_scan_test bitmap_set put_bit spinlock_lock spinlock_unlock add64 sub64 mul64
alloc_two = refl

alloc_example : Allocates pool 2 (alloc_physical_page pool 2)
alloc_example = alloc_physical_page-Allocates pool 2 pool-IsPool (omega arith)

free-alloc_example :
    (m'' : Mem) × (free_physical_page (taken pool 3 2) (3 * pg_size) 2 ≡ done m'')
    × SamePool pool m''
free-alloc_example =
    free-alloc pool 2 (3 * pg_size) (taken pool 3 2) pool-IsPool (omega arith) refl alloc_two
