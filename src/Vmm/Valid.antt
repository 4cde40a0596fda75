-- ===== src/Vmm/Valid.antt =====
-- src/mem/vmm.c: the invariant of a block array, and its first consequences.
use native.Mathlib.Decide.{dec_lt}
use clay_figure_kernel.Base.{
  ℕ, zero, suc, ◌+◌, ◌-◌, ◌^◌, ◌≤◌, ◌<◌, ◌≡◌, ◌≢◌, arith, true, false, List, length, add64_exact,
}
use clay_figure_kernel.Vmm.{Block, Vmm, entry, block_end, vmm_struct_init}
use clay_figure_kernel.Vmm.Cover.{in_block}

-- The blocks in use are not empty, end below 2^64, and stand in ascending order with a gap between
-- any two of them, so that neighbours are always merged.
pub record IsValid (v : Vmm) : Type 0 where
  pub stored : v.total_blocks ≤ length v.blocks
  pub fits : v.using_blocks ≤ v.total_blocks
  pub full : (i : ℕ) → i < v.using_blocks → 0 < (entry v.blocks i).size
  pub bounded :
      (i : ℕ) → i < v.using_blocks → (entry v.blocks i).start + (entry v.blocks i).size < 2 ^ 64
  pub apart :
      (i : ℕ)
      → suc i < v.using_blocks
      → (entry v.blocks i).start + (entry v.blocks i).size < (entry v.blocks (suc i)).start

-- A table made by `vmm_struct_init`, over an array of at least the given number of entries, is valid.
pub vmm_struct_init-IsValid :
    (blocks : List Block) (total : ℕ)
    → total ≤ length blocks
    → IsValid (vmm_struct_init blocks total)
unfolding vmm_struct_init
vmm_struct_init-IsValid blocks total h = record {
  stored = h;
  fits = omega arith;
  full = λ i lt. absurd (omega arith);
  bounded = λ i lt. absurd (omega arith);
  apart = λ i lt. absurd (omega arith);
}

module _ (v : Vmm) (valid : IsValid v) where
  pub end_exact :
      (i : ℕ)
      → i < v.using_blocks
      → block_end (entry v.blocks i) ≡ (entry v.blocks i).start + (entry v.blocks i).size
  end_exact i h = add64_exact (entry v.blocks i).start (entry v.blocks i).size (valid.bounded i h)

  -- Any two blocks stand apart, not only neighbours.
  pub far_apart :
      (i d : ℕ)
      → i + suc d < v.using_blocks
      → (entry v.blocks i).start + (entry v.blocks i).size < (entry v.blocks (i + suc d)).start
  far_apart i zero h = let e : i + 1 ≡ suc i = omega arith in rw e (valid.apart i (omega arith))
  far_apart i (suc d) h =
      let e : i + suc (suc d) ≡ suc (i + suc d) = omega arith in
      rw e (omega (arith, far_apart i d (omega arith), valid.apart (i + suc d) (omega arith)))

  pub ordered :
      (i j : ℕ)
      → i < j
      → j < v.using_blocks
      → (entry v.blocks i).start + (entry v.blocks i).size < (entry v.blocks j).start
  ordered i j lt h =
      let e : i + suc (j - i - 1) ≡ j = omega arith in
      rw e at (far_apart i (j - i - 1) (omega arith))

  -- A block that holds an address is the only one.
  pub other_block :
      (i j a : ℕ)
      → i < v.using_blocks
      → j < v.using_blocks
      → i ≢ j
      → in_block (entry v.blocks i) a ≡ true
      → in_block (entry v.blocks j) a ≡ false
  other_block i j a hi hj ne e = elim (dec_lt i j) [
    | yes before ↦ ground (arith, ordered i j before hj)
    | no after ↦ ground (arith, ordered j i (omega arith) hi)
  ]
