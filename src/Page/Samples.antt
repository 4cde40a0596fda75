-- ===== src/Page/Samples.antt =====
-- src/arch/x86_64/mem/page.c: a pool of 16 pages for the tests.
use clay_figure_kernel.Base.{[], ◌∷◌}
use clay_figure_kernel.Sync.{Spinlock}
use clay_figure_kernel.Page.{Mem}

abbrev unlocked : Spinlock
unlocked = record { lock = 1; preempt_count = 0 }

-- Pages 3 to 15 are free.
abbrev pub pool : Mem
pool = record {
  page_bitmap = record { btmp_bytes_len = 2; map = 0xf8 ∷ 0xff ∷ [] };
  lock = unlocked;
  mem_size = 0x2000000;
  total_pages = 16;
  total_free_pages = 13;
  free_pages = 16;
}
