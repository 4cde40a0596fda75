-- ===== src/Page/Free.antt =====
-- src/arch/x86_64/mem/page.c: `free_physical_page`, alone and after `alloc_physical_page`.
use native.Mathlib.Decide.{dec_lt}
use clay_figure_kernel.Base.{
  ℕ, zero, suc, ◌+◌, ◌*◌, ◌^◌, ◌/◌, ◌%◌, ◌≤◌, ◌<◌, ◌≡◌, ◌≢◌, ◌⊎◌, inl, inr, refl, ap, sym, ◌∙◌,
  arith, ◌==◌, some, Option, Status, success, Run, done, panic, add64_exact, false, bit_and,
}
use clay_figure_kernel.Base.Bits.{bit_and-mask}
use clay_figure_kernel.Sync.{spinlock_lock_free, spinlock_unlock_taken}
use clay_figure_kernel.Bitmap.Bits.{IsValid, bit_at}
use clay_figure_kernel.Bitmap.Alloc.{IsFirstFit}
use clay_figure_kernel.Page.{pg_size, Mem, set_range, alloc_physical_page, free_physical_page}
use clay_figure_kernel.Page.Range.{
  ones-set_range, set_range-IsValid, len-set_range, set_range_inside, set_range_outside,
}
use clay_figure_kernel.Page.Alloc.{Allocates, alloc_physical_page-Allocates, IsPool, taken}

-- The pool after pages `i` to `i + n - 1` are given back.
abbrev pub given_back : Mem → ℕ → ℕ → Mem
given_back m i n = record m {
  page_bitmap = set_range m.page_bitmap 1 i n;
  free_pages = m.free_pages + n;
}

-- `free_physical_page` of the address of page `i` in a valid pool, for `n` pages with `i` and `n`
-- above 0 and a sum of `free_pages` and `n` below 2^64, returns, sets the bits `i` to `i + n - 1` and
-- adds `n` to `free_pages`.
pub free_physical_page_lem :
    (m : Mem) (i n : ℕ)
    → IsPool m
    → 0 < i
    → 0 < n
    → m.free_pages + n < 2 ^ 64
    → free_physical_page m (i * pg_size) n ≡ done (given_back m i n)
unfolding free_physical_page
free_physical_page_lem m i n pool page pos small = rw (
  nonzero,
  not_null,
  aligned,
  spinlock_lock_free m.lock pool.unlocked,
  spinlock_unlock_taken m.lock pool.unlocked pool.preempt_small,
  add64_exact m.free_pages n small,
  index,
)
  where
    nonzero : (n == 0) ≡ false
    nonzero = ground arith

    not_null : (i * pg_size == 0) ≡ false
    not_null = ground arith

    aligned : bit_and (i * pg_size) 0x1fffff ≡ 0
    aligned = omega (arith, bit_and-mask (i * pg_size) 21)

    index : i * pg_size / pg_size ≡ i
    index = omega arith

-- A null or unaligned address, or a count of 0, fails an assertion of `free_physical_page`.
pub free_physical_page_panics :
    (m : Mem) (addr n : ℕ)
    → (n ≡ 0) ⊎ (addr ≡ 0) ⊎ (addr % pg_size ≢ 0)
    → free_physical_page m addr n ≡ panic
unfolding free_physical_page
free_physical_page_panics m addr n h = ground (arith, bit_and-mask addr 21)

-- If the pages lie in the map and are in use, giving them back leaves a valid pool.
pub given_back-IsPool :
    (m : Mem) (i n : ℕ)
    → IsPool m
    → i + n ≤ m.page_bitmap.btmp_bytes_len * 8
    → ((j : ℕ) → i ≤ j → j < i + n → bit_at m.page_bitmap j ≡ 0)
    → m.free_pages + n < 2 ^ 64
    → IsPool (given_back m i n)
given_back-IsPool m i n pool room used small = record {
  bitmap = set_range-IsValid m.page_bitmap 1 i n pool.bitmap;
  unlocked = pool.unlocked;
  preempt_small = pool.preempt_small;
  pages_small = small;
  accounted = simp (len-set_range m.page_bitmap 1 i n) (
      omega (
        arith,
        pool.accounted,
        ones-set_range m.page_bitmap 1 i n (m.page_bitmap.btmp_bytes_len * 8) pool.bitmap
            (omega arith) refl room used,
      ));
}

module _ (m : Mem) (i n : ℕ) (pool : IsPool m) (fit : IsFirstFit m.page_bitmap 1 n i) where
  -- Pages that are allocated and then freed are in the pool as before, with all others.
  back_again :
      (j : ℕ) → bit_at (given_back (taken m i n) i n).page_bitmap j ≡ bit_at m.page_bitmap j
  back_again j = elim (dec_lt j i) [
    | yes before ↦ unchanged (inl before)
    | no after ↦ elim (dec_lt j (i + n)) [
      | no past ↦ unchanged (inr (omega arith))
      | yes inside ↦
          set_range_inside (set_range m.page_bitmap 0 i n) 1 i n j valid (omega arith) (omega arith)
            inside (simp (len-set_range m.page_bitmap 0 i n) (omega (arith, fit.room)))
          ∙ sym (fit.run j (omega arith) inside)
    ]
  ]
    where
      valid : IsValid (set_range m.page_bitmap 0 i n)
      valid = set_range-IsValid m.page_bitmap 0 i n pool.bitmap

      unchanged :
          (j < i) ⊎ (i + n ≤ j)
          → bit_at (given_back (taken m i n) i n).page_bitmap j ≡ bit_at m.page_bitmap j
      unchanged out =
          set_range_outside (set_range m.page_bitmap 0 i n) 1 i n j valid out
          ∙ set_range_outside m.page_bitmap 0 i n j pool.bitmap out

-- The two pools hold the same pages, with the same count of free pages and the same lock.
pub record SamePool (m m' : Mem) : Type 0 where
  pub pages : (j : ℕ) → bit_at m'.page_bitmap j ≡ bit_at m.page_bitmap j
  pub count : m'.free_pages ≡ m.free_pages
  pub lock : m'.lock ≡ m.lock

abbrev returned : Mem → Run (Status × Option ℕ × Mem) → ℕ × Mem
returned m (done (s, some addr, m')) = (addr, m')
returned m _ = (0, m)

-- In a valid pool whose page 0 is not free, freeing what `alloc_physical_page` returned with
-- K_SUCCESS for a count above 0, with the same count, is accepted and gives the pool back as it was.
pub free-alloc :
    (m : Mem) (n addr : ℕ) (m' : Mem)
    → IsPool m
    → 0 < n
    → bit_at m.page_bitmap 0 ≡ 0
    → alloc_physical_page m n ≡ done (success, some addr, m')
    → (m'' : Mem) × (free_physical_page m' addr n ≡ done m'') × SamePool m m''
free-alloc m n addr m' pool pos reserved e = of_alloc (alloc_physical_page-Allocates m n pool pos)
  where
    page : (i : ℕ) → IsFirstFit m.page_bitmap 1 n i → 0 < i
    page zero fit = absurd (omega (arith, fit.run 0 (omega arith) (omega arith)))
    page (suc i) fit = omega arith

    of_alloc :
        Allocates m n (alloc_physical_page m n)
        → (m'' : Mem) × (free_physical_page m' addr n ≡ done m'') × SamePool m m''
    of_alloc (inl (i, e', enough, fit, pool')) = (
      given_back (taken m i n) i n,
      ap (λ (p : ℕ × Mem). free_physical_page p.1 p.0 n) result
          ∙ free_physical_page_lem (taken m i n) i n pool' (page i fit) pos
              (omega (arith, pool.pages_small)),
      record { pages = back_again m i n pool fit; count = omega arith; lock = refl },
    )
      where
        result : ◌≡◌ {A = ℕ × Mem} (addr, m') (i * pg_size, taken m i n)
        result = sym (ap (returned m) e) ∙ ap (returned m) e'
    of_alloc (inr (inl (e', _))) = cc
    of_alloc (inr (inr (e', _))) = cc
