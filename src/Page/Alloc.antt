-- ===== src/Page/Alloc.antt =====
-- src/arch/x86_64/mem/page.c: what `alloc_physical_page` returns and takes out of the pool.
use native.Mathlib.Decide.{dec_lt}
use clay_figure_kernel.Base.{
  ℕ, ◌-◌, ◌*◌, ◌^◌, ◌≤◌, ◌<◌, ◌≡◌, ◌⊎◌, inl, inr, refl, arith, ◌==◌, le→ltb, lt→ltb, some, none,
  Option, Status, success, nomem, error, out_of_resource, Run, done, add64, mul64, sub64_exact,
  true, false, is_error,
}
use clay_figure_kernel.Sync.{spinlock_lock_free, spinlock_unlock_taken}
use clay_figure_kernel.Bitmap.{bitmap_alloc}
use clay_figure_kernel.Bitmap.Bits.{IsValid}
use clay_figure_kernel.Bitmap.Alloc.{Searched, IsFirstFit, HasNoRun, bitmap_alloc-Searched}
use clay_figure_kernel.Page.{pg_size, Mem, set_range, alloc_physical_page, alloc_physical_page_sub}
use clay_figure_kernel.Page.Range.{ones, ones-set_range, set_range-IsValid, len-set_range}

-- The lock is free, and no bit of the map stands for a page that `free_pages` does not count.
pub record IsPool (m : Mem) : Type 0 where
  pub bitmap : IsValid m.page_bitmap
  pub unlocked : m.lock.lock ≡ 1
  pub preempt_small : m.lock.preempt_count < 2 ^ 64
  pub pages_small : m.free_pages < 2 ^ 64
  pub accounted : ones m.page_bitmap (m.page_bitmap.btmp_bytes_len * 8) ≤ m.free_pages

-- The pool after pages `i` to `i + n - 1` are taken.
abbrev pub taken : Mem → ℕ → ℕ → Mem
taken m i n = record m {
  page_bitmap = set_range m.page_bitmap 0 i n;
  free_pages = m.free_pages - n;
}

-- The three ways in which the call ends.
abbrev pub Allocates : Mem → ℕ → Run (Status × Option ℕ × Mem) → Type 0
Allocates m n r =
    ((i : ℕ) × (r ≡ done (success, some (i * pg_size), taken m i n))
      × (n ≤ m.free_pages)
      × IsFirstFit m.page_bitmap 1 n i
      × IsPool (taken m i n))
    ⊎ ((r ≡ done (nomem, some 0, m)) × (m.free_pages < n))
    ⊎ ((r ≡ done (nomem, none, m)) × HasNoRun m.page_bitmap 1 n)

module _ (m : Mem) (n : ℕ) (pool : IsPool m) (pos : 0 < n) where
  abbrev locked : Mem
  locked = record m { lock = record { lock = 0; preempt_count = add64 m.lock.preempt_count 1 } }

  nonzero : (n == 0) ≡ false
  nonzero = ground arith

  paddr_exact : (i : ℕ) → i < 2 ^ 32 → mul64 i pg_size ≡ i * pg_size
  unfolding mul64
  paddr_exact i h = omega arith

  sub_found :
      (i : ℕ)
      → bitmap_alloc m.page_bitmap 1 n true ≡ (success, some i)
      → n ≤ m.free_pages
      → i < 2 ^ 32
      → alloc_physical_page_sub locked n ≡ done (success, some (i * pg_size), taken locked i n)
  unfolding alloc_physical_page_sub
  sub_found i e enough small =
      rw (nonzero, e, paddr_exact i small, sub64_exact m.free_pages n enough pool.pages_small)

  sub_failed :
      (s : Status)
      → bitmap_alloc m.page_bitmap 1 n true ≡ (s, none)
      → is_error s ≡ true
      → alloc_physical_page_sub locked n ≡ done (nomem, none, locked)
  unfolding alloc_physical_page_sub
  sub_failed s e bad = rw (nonzero, e, bad)

  alloc_of_sub :
      (s : Status) (addr : Option ℕ) (m' : Mem)
      → n ≤ m.free_pages
      → alloc_physical_page_sub locked n ≡ done (s, addr, record m' { lock = locked.lock })
      → alloc_physical_page m n ≡ done (s, addr, record m' { lock = m.lock })
  unfolding alloc_physical_page
  alloc_of_sub s addr m' enough e = rw (
    nonzero,
    le→ltb m.free_pages n enough,
    spinlock_lock_free m.lock pool.unlocked,
    e,
    spinlock_unlock_taken m.lock pool.unlocked pool.preempt_small,
  )

  alloc_short : m.free_pages < n → alloc_physical_page m n ≡ done (nomem, some 0, m)
  unfolding alloc_physical_page
  alloc_short h = rw (nonzero, lt→ltb m.free_pages n h)

  pub taken-IsPool : (i : ℕ) → IsFirstFit m.page_bitmap 1 n i → IsPool (taken m i n)
  taken-IsPool i fit = record {
    bitmap = set_range-IsValid m.page_bitmap 0 i n pool.bitmap;
    unlocked = pool.unlocked;
    preempt_small = pool.preempt_small;
    pages_small = omega (arith, pool.pages_small);
    accounted = simp (len-set_range m.page_bitmap 0 i n) (
        omega (
          arith,
          pool.accounted,
          ones-set_range m.page_bitmap 0 i n (m.page_bitmap.btmp_bytes_len * 8) pool.bitmap
              (omega arith) refl fit.room fit.run,
        ));
  }

-- `alloc_physical_page` of a valid pool and a page count above 0. Either it takes the first run of
-- `n` free pages, returns K_SUCCESS and the address of the run, and leaves a valid pool; or it
-- returns K_NOMEM and leaves the pool as it was, and then `free_pages` was below `n` (a null
-- address is stored) or the map has no run of `n` free pages (nothing is stored).
pub alloc_physical_page-Allocates :
    (m : Mem) (n : ℕ) → IsPool m → 0 < n → Allocates m n (alloc_physical_page m n)
alloc_physical_page-Allocates m n pool pos = elim (dec_lt m.free_pages n) [
  | yes short ↦ inr (inl (alloc_short m n pool pos short, short))
  | no enough ↦
      of_search enough (bitmap_alloc-Searched m.page_bitmap 1 n pool.bitmap (omega arith) pos)
]
  where
    of_search :
        ¬ (m.free_pages < n)
        → Searched m.page_bitmap 1 n (bitmap_alloc m.page_bitmap 1 n true)
        → Allocates m n (alloc_physical_page m n)
    of_search enough (inl (i, e, fit)) = inl (
      i,
      alloc_of_sub m n pool pos success (some (i * pg_size)) (taken m i n) (omega arith)
          (sub_found m n pool pos i e (omega arith) (omega (arith, fit.room, pool.bitmap.small))),
      omega arith,
      fit,
      taken-IsPool m n pool pos i fit,
    )
    of_search enough (inr (inl e, norun)) = inr (
        inr (
          alloc_of_sub m n pool pos nomem none m (omega arith)
              (sub_failed m n pool pos error e refl),
          norun,
        ))
    of_search enough (inr (inr e, norun)) = inr (
        inr (
          alloc_of_sub m n pool pos nomem none m (omega arith)
              (sub_failed m n pool pos out_of_resource e refl),
          norun,
        ))
