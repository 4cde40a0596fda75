-- ===== src/Page.antt =====
-- src/arch/x86_64/mem/page.c: the pool of physical pages of 2 MiB: the structure `mem`,
-- `alloc_physical_page`, `alloc_physical_page_sub` and `free_physical_page`. The log lines are
-- left out. `addr` and `&index` are never null here.
pub mod Range
pub mod Alloc
pub mod Free
pub mod Samples
mod Tests
use clay_figure_kernel.Base.{
  ℕ, zero, suc, ◌+◌, ◌/◌, Bool, true, false, not, Option, none, some, ltb, ◌==◌, if◌then◌else◌,
  bit_and, add64, sub64, mul64, Status, success, nomem, is_error, Run, done, ◌>>=◌, ◌>>◌, assert,
}
use mathlib.Core.Option
use clay_figure_kernel.Sync.{Spinlock, spinlock_lock, spinlock_unlock}
use clay_figure_kernel.Bitmap.{Bitmap, bitmap_alloc, bitmap_set}

abbrev pub pg_size : ℕ
pg_size = 0x200000

-- `lock` holds `mem.lock` beside the running task's `preempt_count`.
pub record Mem : Type 0 where
  pub page_bitmap : Bitmap
  pub lock : Spinlock
  pub mem_size : ℕ
  pub total_pages : ℕ
  pub total_free_pages : ℕ
  pub free_pages : ℕ

abbrev pub get_total_free_pages : Mem → ℕ
get_total_free_pages m = m.total_free_pages

-- `for (i = start; i < start + n; i++) bitmap_set(bitmap, i, value)`.
pub set_range : Bitmap → ℕ → ℕ → ℕ → Bitmap
set_range b value start zero = b
set_range b value start (suc n) = set_range (bitmap_set b start value) value (start + 1) n

-- The option is what is stored through `addr`.
pub alloc_physical_page_sub : Mem → ℕ → Run (Status × Option ℕ × Mem)
alloc_physical_page_sub m number_of_pages = do
  assert (not (number_of_pages == 0))
  let (status, index) = bitmap_alloc m.page_bitmap 1 number_of_pages true
  if is_error status
      then done (nomem, none, m)
      else (let index = Option.get_or index 0 in
          done (
            success,
            some (mul64 index pg_size),
            record m {
              page_bitmap = set_range m.page_bitmap 0 index number_of_pages;
              free_pages = sub64 m.free_pages number_of_pages;
            },
          ))

pub alloc_physical_page : Mem → ℕ → Run (Status × Option ℕ × Mem)
alloc_physical_page m number_of_pages = do
  assert (not (number_of_pages == 0))
  if ltb m.free_pages number_of_pages then done (nomem, some 0, m) else do
    lock ← spinlock_lock m.lock
    (status, addr, m') ← alloc_physical_page_sub (record m { lock = lock }) number_of_pages
    done (status, addr, record m' { lock = spinlock_unlock m'.lock })

pub free_physical_page : Mem → ℕ → ℕ → Run Mem
free_physical_page m addr number_of_pages = do
  assert (not (number_of_pages == 0))
  assert (if addr == 0 then false else bit_and addr 0x1fffff == 0)
  lock ← spinlock_lock m.lock
  let bitmap = set_range m.page_bitmap 1 (addr / pg_size) number_of_pages
  done (record m {
    page_bitmap = bitmap;
    free_pages = add64 m.free_pages number_of_pages;
    lock = spinlock_unlock lock;
  })
