-- ===== src/Vmm/Tests.antt =====
-- src/mem/vmm.c: two blocks, 10 to 14 and 20 to 26, in an array of three entries.
use clay_figure_kernel.Base.{
  ℕ, zero, suc, ◌+◌, ◌^◌, ◌<◌, ◌≡◌, ◌⊎◌, refl, arith, true, false, List, [], add64, sub64, ◌∷◌,
}
use clay_figure_kernel.Vmm.{
  Block, Vmm, no_block, entry, vmm_add_range, vmm_remove_range, vmm_alloc, vmm_find, find_above,
  find_holder, move_forward, forward_from, move_backward, backward_to, merge_previous, insert_block,
  cut_block,
}
use clay_figure_kernel.Vmm.Cover.{in_range, holds, covered}
use clay_figure_kernel.Vmm.Valid.{IsValid}
use clay_figure_kernel.Vmm.Grow.{Added}
use clay_figure_kernel.Vmm.Add.{vmm_add_range-Added}
use clay_figure_kernel.Vmm.Cut.{Removed}
use clay_figure_kernel.Vmm.Remove.{vmm_remove_range-Removed}
use clay_figure_kernel.Vmm.Alloc.{Allocated, vmm_alloc-Allocated, Touches, vmm_find-Touches}

abbrev blank : List Block
blank = no_block ∷ no_block ∷ no_block ∷ []

abbrev two_blocks : Vmm
two_blocks = record {
  blocks = (record { start = 10; size = 5 }) ∷ (record { start = 20; size = 7 }) ∷ no_block ∷ [];
  total_blocks = 3;
  using_blocks = 2;
}

two_blocks-IsValid : IsValid two_blocks
two_blocks-IsValid = record {
  stored = omega arith;
  fits = omega arith;
  full = full;
  bounded = bounded;
  apart = apart;
}
  where
    full : (i : ℕ) → i < 2 → 0 < (entry two_blocks.blocks i).size
    full zero h = omega arith
    full (suc zero) h = omega arith
    full (suc (suc i)) h = absurd (omega arith)

    bounded :
        (i : ℕ)
        → i < 2
        → (entry two_blocks.blocks i).start + (entry two_blocks.blocks i).size < 2 ^ 64
    bounded zero h = omega arith
    bounded (suc zero) h = omega arith
    bounded (suc (suc i)) h = absurd (omega arith)

    apart :
        (i : ℕ)
        → suc i < 2
        → (entry two_blocks.blocks i).start + (entry two_blocks.blocks i).size
          < (entry two_blocks.blocks (suc i)).start
    apart zero h = omega arith
    apart (suc i) h = absurd (omega arith)

-- The gap between the blocks is filled: one block is in use, and the second entry is stale.
add_merges :
    (vmm_add_range two_blocks 15 5).1.blocks
    ≡ (record { start = 10; size = 17 }) ∷ (record { start = 20; size = 7 }) ∷ no_block ∷ []
unfolding vmm_add_range find_above merge_previous move_forward forward_from add64
add_merges = refl

-- A block is split.
remove_splits :
    (vmm_remove_range two_blocks 12 2).1.blocks
    ≡ (record { start = 10; size = 2 })
      ∷ (record { start = 14; size = 1 })
      ∷ (record { start = 20; size = 7 })
      ∷ []
unfolding vmm_remove_range find_holder cut_block insert_block move_backward backward_to add64 sub64
remove_splits = refl

gap_fresh : (a : ℕ) → in_range 15 5 a ≡ true → holds two_blocks a ≡ false
unfolding covered
gap_fresh a h = ground arith

vmm_add_range_example : Added two_blocks 15 5 (vmm_add_range two_blocks 15 5)
vmm_add_range_example =
    vmm_add_range-Added two_blocks 15 5 two_blocks-IsValid (omega arith) (omega arith) gap_fresh

vmm_remove_range_example : Removed two_blocks 12 2 (vmm_remove_range two_blocks 12 2)
vmm_remove_range_example =
    vmm_remove_range-Removed two_blocks 12 2 two_blocks-IsValid (omega arith) (omega arith)

vmm_alloc_example : Allocated two_blocks 6 (vmm_alloc two_blocks 6)
vmm_alloc_example = vmm_alloc-Allocated two_blocks 6 two_blocks-IsValid (omega arith)

vmm_find_example :
    ((vmm_find two_blocks 15 ≡ 1) × ((i : ℕ) × Touches two_blocks 15 i))
    ⊎ ((vmm_find two_blocks 15 ≡ 0)
        × ((i : ℕ) → ¬ Touches two_blocks 15 i)
        × (holds two_blocks 15 ≡ false))
vmm_find_example = vmm_find-Touches two_blocks 15 two_blocks-IsValid
