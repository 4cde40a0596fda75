-- ===== src/Strings/Tests.antt =====
-- src/lib/string.c: the string "ab" at 16, and the string "abc" at 32.
use clay_figure_kernel.Base.{ℕ, ◌-◌, ◌^◌, ◌≡◌, inr, refl, arith, ◌==◌, if◌then◌else◌}
use clay_figure_kernel.Strings.{Bytes, strcmp, strncmp, strncpy}
use clay_figure_kernel.Strings.Text.{IsString, Differs, strcmp-Differs}
use clay_figure_kernel.Strings.Copies.{strncpy_lem, strncpy_overruns}

abbrev words : Bytes
words x =
    if x == 16
    then 97
    else if x == 17
    then 98
    else if x == 32
    then 97
    else if x == 33
    then 98
    else if x == 34
    then 99
    else 0

words_short : IsString words 16 2
words_short = record { chars = λ i h e. ground arith; ends = refl; small = omega arith }

words_long : IsString words 32 3
words_long = record { chars = λ i h e. ground arith; ends = refl; small = omega arith }

strcmp_example : (k : ℕ) × Differs words 16 32 k (strcmp words 16 32 8)
strcmp_example = strcmp-Differs words 16 32 2 3 8 words_short words_long (omega arith)

strncpy_example : (strncpy words 64 16 6).1 65 ≡ 98
strncpy_example =
    strncpy_lem words 64 16 2 6 65 words_short (omega arith) (omega arith) (inr (omega arith))

strncpy_overruns_example : (strncpy words 64 32 3).1 100 ≡ 0
strncpy_overruns_example =
    strncpy_overruns words 64 32 3 33 words_long.chars (omega arith) (omega arith) (omega arith)
      (inr (omega arith))

-- A bound of 0 compares the first bytes, and a bound of 1 misses that only one string has ended.
strncmp_runs : (strncmp words 16 34 0 ≡ 2 ^ 32 - 2) × (strncmp words 18 16 1 ≡ 0)
unfolding strncmp
strncmp_runs = (refl, refl)
