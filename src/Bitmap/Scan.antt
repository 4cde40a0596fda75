-- ===== src/Bitmap/Scan.antt =====
-- src/lib/bitmap.c: what the three loops of `bitmap_alloc` find.
use clay_figure_kernel.Base.{
  ℕ, zero, suc, ◌+◌, ◌*◌, ◌/◌, ◌%◌, ◌≤◌, ◌<◌, ◌≡◌, ap, ◌∙◌, ◌≢◌, ◌⊎◌, inl, inr, Option, none, some,
  arith, get_or, le→ltb, add64, add64_exact,
}
use native.Mathlib.Decide.{ℕ_discrete, dec_lt}
use clay_figure_kernel.Bitmap.{Bitmap, bitmap_scan_test, count_run}
use clay_figure_kernel.Base.Bits.{bit_of-le_one}
use clay_figure_kernel.Bitmap.Bits.{IsValid, bit_at, bitmap_scan_test_lem}

-- Bits `at` to `at + n - 1` have the value.
abbrev pub IsRun : Bitmap → ℕ → ℕ → ℕ → Type 0
IsRun b value at n = (j : ℕ) → at ≤ j → j < at + n → bit_at b j ≡ value

module _ (b : Bitmap) (value : ℕ) (valid : IsValid b) (bit : value ≤ 1) where
  -- What the inner loop returns.
  abbrev pub Counted : ℕ → ℕ → Option ℕ → Type 0
  Counted at cnt none = (f : ℕ) × (f < cnt) × (b.btmp_bytes_len * 8 ≤ at + f) × IsRun b value at f
  Counted at cnt (some f) =
      IsRun b value at f
      × (((f ≡ cnt) × (at + f ≤ b.btmp_bytes_len * 8))
          ⊎ ((f < cnt) × (at + f < b.btmp_bytes_len * 8) × (bit_at b (at + f) ≢ value)))

  IsRun-extend :
      (at f : ℕ) → IsRun b value at f → bit_at b (at + f) ≡ value → IsRun b value at (f + 1)
  IsRun-extend at f run here j lo hi = elim (ℕ_discrete j (at + f)) [
    | yes e ↦ ap (λ (k : ℕ). bit_at b k) e ∙ here
    | no ne ↦ run j lo (omega arith)
  ]

  scan_in :
      (at f : ℕ)
      → at + f < b.btmp_bytes_len * 8
      → bitmap_scan_test b (add64 at f) ≡ some (bit_at b (at + f))
  scan_in at f h =
      ap (λ (k : ℕ). bitmap_scan_test b k) (add64_exact at f (omega (arith, valid.small)))
      ∙ ground (arith, bitmap_scan_test_lem b (at + f))

  count_run_match :
      (left at f : ℕ)
      → at + f < b.btmp_bytes_len * 8
      → bit_at b (at + f) ≡ value
      → count_run b value at (suc left) f ≡ count_run b value at left (f + 1)
  unfolding count_run
  count_run_match left at f h e = ground (arith, scan_in at f h)

  count_run_mismatch :
      (left at f : ℕ)
      → at + f < b.btmp_bytes_len * 8
      → bit_at b (at + f) ≢ value
      → count_run b value at (suc left) f ≡ some f
  unfolding count_run
  count_run_mismatch left at f h ne =
      ground (arith, scan_in at f h, bit_of-le_one (get_or b.map ((at + f) / 8) 0) ((at + f) % 8))

  count_run_end :
      (left at f : ℕ) → at + f ≡ b.btmp_bytes_len * 8 → count_run b value at (suc left) f ≡ none
  unfolding count_run
  count_run_end left at f h =
      let e : add64 at f ≡ at + f = add64_exact at f (omega (arith, valid.small)) in
      rw (
        e,
        bitmap_scan_test_lem b (at + f),
        le→ltb (at + f) (b.btmp_bytes_len * 8) (omega arith),
        count_run,
      )

  pub count_run-Counted :
      (left at f cnt : ℕ)
      → f + left ≡ cnt
      → at + f ≤ b.btmp_bytes_len * 8
      → IsRun b value at f
      → Counted at cnt (count_run b value at left f)
  count_run-Counted zero at f cnt e room run = unfold count_run in (run, inl (omega arith, room))
  count_run-Counted (suc left) at f cnt e room run = elim (dec_lt (at + f) (b.btmp_bytes_len * 8)) [
    | no past ↦ rw (count_run_end left at f (omega arith)) (f, omega arith, omega arith, run)
    | yes inside ↦ elim (ℕ_discrete (bit_at b (at + f)) value) [
      | yes same ↦ rw (count_run_match left at f inside same) (
          count_run-Counted left at (f + 1) cnt (omega arith) (omega arith)
            (IsRun-extend at f run same))
      | no other ↦
          rw (count_run_mismatch left at f inside other) (run, inr (omega arith, inside, other))
    ]
  ]
