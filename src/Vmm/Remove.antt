-- ===== src/Vmm/Remove.antt =====
-- src/mem/vmm.c: `vmm_remove_range` takes out exactly the range, if one block holds all of it.
use native.Mathlib.Decide.{ℕ_discrete, dec_lt, dec_le}
use clay_figure_kernel.Base.{
  ℕ, zero, suc, ◌+◌, ◌^◌, ◌<◌, ◌≡◌, inl, inr, refl, arith, leb, if◌then◌else◌, add64_exact,
  not_found, le→leb, lt→leb,
}
use clay_figure_kernel.Vmm.{Vmm, entry, find_holder, cut_block, vmm_remove_range}
use clay_figure_kernel.Vmm.Valid.{IsValid, end_exact}
use clay_figure_kernel.Vmm.Cut.{Holds, Removed, cut_block-Removed}

module _ (v : Vmm) (valid : IsValid v) (s size : ℕ) (small : s + size < 2 ^ 64) where
  find_holder_lem :
      (left i : ℕ)
      → i + left ≡ v.using_blocks
      → ((j : ℕ) → j < i → ¬ Holds v j s size)
      → ((j : ℕ) → j < find_holder v.blocks s (s + size) left i → ¬ Holds v j s size)
        × (find_holder v.blocks s (s + size) left i < v.using_blocks
            → Holds v (find_holder v.blocks s (s + size) left i) s size)
  unfolding find_holder
  find_holder_lem zero i e none = (none, λ h. absurd (omega arith))
  find_holder_lem (suc left) i e none =
      let used : i < v.using_blocks = omega arith in
      elim (dec_le (entry v.blocks i).start s) [
        | yes from ↦ elim (dec_le (s + size) ((entry v.blocks i).start + (entry v.blocks i).size)) [
          | yes upto ↦
              rw
                (
                  end_exact v valid i used,
                  le→leb (entry v.blocks i).start s from,
                  le→leb (s + size) ((entry v.blocks i).start + (entry v.blocks i).size) upto,
                )
                (none, λ h. (used, from, upto))
          | no past ↦
              rw
                (
                  end_exact v valid i used,
                  le→leb (entry v.blocks i).start s from,
                  lt→leb ((entry v.blocks i).start + (entry v.blocks i).size) (s + size)
                      (omega arith),
                )
                (find_holder_lem left (i + 1) (omega arith) (extend i none (λ h. past h.2)))
        ]
        | no above ↦
            rw (lt→leb s (entry v.blocks i).start (omega arith))
              (find_holder_lem left (i + 1) (omega arith) (extend i none (λ h. above h.1)))
      ]
    where
      extend :
          (k : ℕ)
          → ((j : ℕ) → j < k → ¬ Holds v j s size)
          → ¬ Holds v k s size
          → (j : ℕ) → j < k + 1
          → ¬ Holds v j s size
      extend k old new j h = elim (ℕ_discrete j k) [
        | yes e ↦ rw e new
        | no ne ↦ old j (omega arith)
      ]

-- `vmm_remove_range`, on a valid array, of at least one byte, in a range that ends below 2^64. Either one block
-- held the whole range, and the call returns K_SUCCESS and leaves a valid array that holds just the
-- addresses that it held, less those of the range; or no block holds it all, and the call returns
-- K_NOT_FOUND; or all blocks are in use and the range begins inside the block that holds it, and the
-- call returns K_OUT_OF_RESOURCE. Without success the array is as it was.
pub vmm_remove_range-Removed :
    (v : Vmm) (start size : ℕ)
    → IsValid v
    → 0 < size
    → start + size < 2 ^ 64
    → Removed v start size (vmm_remove_range v start size)
unfolding vmm_remove_range
vmm_remove_range-Removed v s size valid pos small = rw (add64_exact s size small) (
    at_index (find_holder v.blocks s (s + size) v.using_blocks 0) refl (
      find_holder_lem v valid s size small v.using_blocks 0 (omega arith)
        (λ j h. absurd (omega arith))))
  where
    at_index :
        (i : ℕ)
        → find_holder v.blocks s (s + size) v.using_blocks 0 ≡ i
        → ((j : ℕ) → j < i → ¬ Holds v j s size) × (i < v.using_blocks → Holds v i s size)
        → Removed v s size (
            if leb v.using_blocks i
            then (not_found, v)
            else cut_block v i (entry v.blocks i) s (s + size))
    at_index i e (none, found) = elim (dec_lt i v.using_blocks) [
      | no past ↦
          rw (le→leb v.using_blocks i (omega arith))
            (inr (inl (refl, λ j h. none j (omega (arith, h.0)) h)))
      | yes inside ↦
          let h = found inside in
          rw (lt→leb i v.using_blocks inside) (cut_block-Removed v valid s size pos i h.0 h.1 h.2)
    ]
