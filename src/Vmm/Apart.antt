-- ===== src/Vmm/Apart.antt =====
-- src/mem/vmm.c: the branches of `vmm_add_range` for a range that does not join the block before it.
use native.Mathlib.Decide.{ℕ_discrete, dec_lt}
use clay_figure_kernel.Base.{
  ℕ, suc, ◌+◌, ◌^◌, ◌≤◌, ◌<◌, ◌≡◌, ◌≢◌, inl, inr, refl, arith, true, false, ◌&&◌, ◌||◌, ltb, ◌==◌,
  add64, add64_exact, success, lt→ltb, le→ltb, ne→ne, ==_iff,
}
use clay_figure_kernel.Vmm.{Block, Vmm, entry, insert_block, add_apart}
use clay_figure_kernel.Vmm.Cover.{in_block, in_range, holds, covered_of_block}
use clay_figure_kernel.Vmm.Valid.{IsValid}
use clay_figure_kernel.Vmm.Edit.{
  Fits, replace, replace-IsValid, holds-replace, entry-replace_self, inserted-IsValid,
  holds-inserted,
}
use clay_figure_kernel.Vmm.Grow.{Added, grown_holds, prev_end, next_start}

module _ (v : Vmm) (valid : IsValid v) (s size : ℕ) (pos : 0 < size) (small : s + size < 2 ^ 64)
    (fresh : (a : ℕ) → in_range s size a ≡ true → holds v a ≡ false) (i : ℕ)
    (inside : i ≤ v.using_blocks) (low : (j : ℕ) → j < i → (entry v.blocks j).start ≤ s)
    (high : i < v.using_blocks → s < (entry v.blocks i).start) where
  ends_before : (k : ℕ) → suc k ≡ i → (entry v.blocks k).start + (entry v.blocks k).size ≤ s
  ends_before = prev_end v valid s size pos small fresh i inside low high

  starts_behind : i < v.using_blocks → s + size ≤ (entry v.blocks i).start
  starts_behind = next_start v valid s size pos small fresh i inside low high

  -- The range takes a place of its own.
  insert_Fits :
      ((k : ℕ) → suc k ≡ i → (entry v.blocks k).start + (entry v.blocks k).size ≢ s)
      → (i < v.using_blocks → s + size ≢ (entry v.blocks i).start)
      → Fits v i i (record { start = s; size = size })
  insert_Fits left right = record {
    full = pos;
    bounded = small;
    after = λ k e. omega (arith, left k e, ends_before k e);
    before = λ h. omega (arith, right h, starts_behind h);
  }

  -- Block `i` grows at its start.
  abbrev lowered : Block
  lowered = record { start = s; size = (entry v.blocks i).size + size }

  module _ (more : i < v.using_blocks) (meet : s + size ≡ (entry v.blocks i).start) where
    lowered-Fits :
        ((k : ℕ) → suc k ≡ i → (entry v.blocks k).start + (entry v.blocks k).size ≢ s)
        → Fits v i (suc i) lowered
    lowered-Fits left = record {
      full = omega arith;
      bounded = omega (arith, valid.bounded i more);
      after = λ k e. omega (arith, left k e, ends_before k e);
      before = λ h. omega (arith, valid.apart i h);
    }

    lowered-holds : (a : ℕ) → holds (replace v valid i lowered) a ≡ (holds v a || in_range s size a)
    lowered-holds a =
        grown_holds (holds (replace v valid i lowered) a) (in_block (entry v.blocks i) a)
          (holds v a) (in_block lowered a) (in_range s size a)
          (holds-replace v valid i lowered a more) (ground arith)
          (covered_of_block v.blocks v.using_blocks i a more)
          (λ e.
            covered_of_block (replace v valid i lowered).blocks v.using_blocks i a more
              (rw (entry-replace_self v valid i lowered more) e))

    add_lowered : add_apart v i s size ≡ (success, replace v valid i lowered)
    unfolding add_apart
    add_lowered = rw (
      lt→ltb i v.using_blocks more,
      add64_exact s size small,
      (==_iff (s + size) (entry v.blocks i).start).1 meet,
      add64_exact (entry v.blocks i).size size (omega (arith, valid.bounded i more)),
    )

  no_meeting :
      (i < v.using_blocks → s + size ≢ (entry v.blocks i).start)
      → (ltb i v.using_blocks && add64 s size == (entry v.blocks i).start) ≡ false
  no_meeting right = elim (dec_lt i v.using_blocks) [
    | no past ↦ rw (le→ltb i v.using_blocks (omega arith))
    | yes more ↦ rw (
      lt→ltb i v.using_blocks more,
      add64_exact s size small,
      ne→ne (s + size) (entry v.blocks i).start (right more),
    )
  ]

  add_own :
      ((k : ℕ) → suc k ≡ i → (entry v.blocks k).start + (entry v.blocks k).size ≢ s)
      → (i < v.using_blocks → s + size ≢ (entry v.blocks i).start)
      → Added v s size (add_apart v i s size)
  unfolding add_apart
  add_own left right = elim (dec_lt v.using_blocks v.total_blocks) [
    | yes room ↦
        rw (no_meeting right, lt→ltb v.using_blocks v.total_blocks room)
          (inl (
            insert_block v i (record { start = s; size = size }),
            refl,
            inserted-IsValid v valid i (record { start = s; size = size }) inside room
                (insert_Fits left right),
            λ a. holds-inserted v valid i (record { start = s; size = size }) a inside room,
          ))
    | no full ↦
        rw (no_meeting right, le→ltb v.using_blocks v.total_blocks (omega arith))
          (inr (refl, omega (arith, valid.fits)))
  ]

  pub add_apart-Added :
      ((k : ℕ) → suc k ≡ i → (entry v.blocks k).start + (entry v.blocks k).size ≢ s)
      → Added v s size (add_apart v i s size)
  add_apart-Added left = elim (dec_lt i v.using_blocks) [
    | no past ↦ add_own left (λ h. absurd (past h))
    | yes more ↦ elim (ℕ_discrete (s + size) (entry v.blocks i).start) [
      | no gap ↦ add_own left (λ _. gap)
      | yes meet ↦ rw (add_lowered more meet) (
          inl (
            replace v valid i lowered,
            refl,
            replace-IsValid v valid i lowered more (lowered-Fits more meet left),
            lowered-holds more meet,
          ))
    ]
  ]
