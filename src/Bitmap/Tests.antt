-- ===== src/Bitmap/Tests.antt =====
-- Runs of src/lib/bitmap.c and the theorems at concrete maps.
use clay_figure_kernel.Base.{
  ◌≡◌, refl, true, some, none, [], ◌∷◌, arith, success, error, out_of_resource, invalid_param,
  mul64, add64,
}
use clay_figure_kernel.Bitmap.{Bitmap, bitmap_scan_test, skip_full, count_run, search, bitmap_alloc}
use clay_figure_kernel.Bitmap.Bits.{IsValid}
use clay_figure_kernel.Bitmap.Alloc.{Searched, bitmap_alloc-Searched}

-- Bits 4 to 7 and 9 to 15 are 1.
abbrev sample : Bitmap
sample = record { btmp_bytes_len = 3; map = 0 ∷ 0xf0 ∷ 0xfe ∷ [] }

sample-IsValid : IsValid sample
sample-IsValid = omega arith

alloc_runs :
    (bitmap_alloc sample 1 5 true ≡ (success, some 17))
    × (bitmap_alloc sample 1 4 true ≡ (success, some 12))
    × (bitmap_alloc sample 1 8 true ≡ (error, none))
    × (bitmap_alloc sample 0 13 true ≡ (out_of_resource, none))
    × (bitmap_alloc sample 2 1 true ≡ (invalid_param, none))
unfolding bitmap_alloc skip_full search count_run bitmap_scan_test mul64 add64
alloc_runs = (refl, refl, refl, refl, refl)

bitmap_alloc_example : Searched sample 1 5 (bitmap_alloc sample 1 5 true)
bitmap_alloc_example = bitmap_alloc-Searched sample 1 5 sample-IsValid (omega arith) (omega arith)
