-- ===== src/Vmm/Alloc.antt =====
-- src/mem/vmm.c: `vmm_alloc` and `vmm_find`.
use native.Mathlib.Decide.{ℕ_discrete, dec_lt, dec_le}
use mathlib.Core.Bool.{false≢true}
use clay_figure_kernel.Base.{
  ℕ, zero, suc, ◌+◌, ◌≤◌, ◌<◌, ◌≡◌, ◌⊎◌, inl, inr, refl, ap, sym, ◌∙◌, arith, true, false, not,
  ◌&&◌, List, Option, some, none, ltb, if◌then◌else◌, Status, success, out_of_resource, lt→ltb,
  le→ltb, le→leb, lt→leb,
}
use clay_figure_kernel.Vmm.{
  Block, Vmm, entry, find_large, vmm_alloc, vmm_remove_range, find_from, vmm_find,
}
use clay_figure_kernel.Vmm.Cover.{in_range, holds, covered_of_block, covered_none}
use clay_figure_kernel.Vmm.Valid.{IsValid, end_exact, other_block}
use clay_figure_kernel.Vmm.Cut.{Holds, Removed}
use clay_figure_kernel.Vmm.Remove.{vmm_remove_range-Removed}

-- The two ways in which the call ends.
abbrev pub Allocated : Vmm → ℕ → Status × Option ℕ × Vmm → Type 0
Allocated v size r =
    ((start : ℕ) × (v' : Vmm) × (r ≡ (success, some start, v'))
      × IsValid v'
      × ((a : ℕ) → in_range start size a ≡ true → holds v a ≡ true)
      × ((a : ℕ) → holds v' a ≡ (holds v a && not (in_range start size a))))
    ⊎ ((r ≡ (out_of_resource, none, v))
        × ((i : ℕ) → i < v.using_blocks → (entry v.blocks i).size < size))

find_large_lem :
    (bs : List Block) (size left i n : ℕ)
    → i + left ≡ n
    → ((j : ℕ) → j < i → (entry bs j).size < size)
    → ((j : ℕ) → j < find_large bs size left i → (entry bs j).size < size)
      × (find_large bs size left i ≤ n)
      × (find_large bs size left i < n → size ≤ (entry bs (find_large bs size left i)).size)
unfolding find_large
find_large_lem bs size zero i n e small = (small, omega arith, λ h. absurd (omega arith))
find_large_lem bs size (suc left) i n e small = elim (dec_le size (entry bs i).size) [
  | yes large ↦ rw (le→leb size (entry bs i).size large) (small, omega arith, λ _. large)
  | no short ↦ rw (lt→leb (entry bs i).size size (omega arith)) (
      find_large_lem bs size left (i + 1) n (omega arith) (λ j h. elim (ℕ_discrete j i) [
        | yes here ↦ rw here (omega arith)
        | no before ↦ small j (omega arith)
      ]))
]

module _ (v : Vmm) (size : ℕ) (valid : IsValid v) (pos : 0 < size) where
  module _ (i : ℕ) (inside : i < v.using_blocks) (large : size ≤ (entry v.blocks i).size) where
    abbrev start : ℕ
    start = (entry v.blocks i).start

    -- Only block `i` holds the range, and at its start.
    no_other : (j : ℕ) → Holds v j start size → ¬ ((entry v.blocks j).start < start)
    no_other j (used, from, upto) h = elim (ℕ_discrete i j) [
      | yes same ↦ absurd (omega (arith, ap (λ (k : ℕ). (entry v.blocks k).start) same))
      | no ne ↦ absurd (
          false≢true (
            sym (other_block v valid i j start inside used ne (ground (arith, valid.full i inside)))
            ∙ ground arith))
    ]

    of_removal :
        Removed v start size (vmm_remove_range v start size)
        → Allocated v size (success, some start, (vmm_remove_range v start size).1)
    of_removal (inl (v', e, valid', less, _)) = inl (
      start,
      v',
      ap (λ (r : Status × Vmm). (success, some start, r.1)) e,
      valid',
      λ a h. covered_of_block v.blocks v.using_blocks i a inside (ground arith),
      less,
    )
    of_removal (inr (inl (_, none_holds))) =
        absurd (none_holds i (inside, omega arith, omega arith))
    of_removal (inr (inr (_, _, (j, (h, late))))) = absurd (no_other j h late)

-- `vmm_alloc` of at least one byte from a valid array. Either it returns K_SUCCESS and the start of
-- a range of which the array held every byte, and leaves a valid array that holds just the other
-- addresses; or it returns K_OUT_OF_RESOURCE, the array is as it was, and every block is too small.
pub vmm_alloc-Allocated :
    (v : Vmm) (size : ℕ) → IsValid v → 0 < size → Allocated v size (vmm_alloc v size)
unfolding vmm_alloc
vmm_alloc-Allocated v size valid pos = at_index (find_large v.blocks size v.using_blocks 0) (
    find_large_lem v.blocks size v.using_blocks 0 v.using_blocks (omega arith)
      (λ j h. absurd (omega arith)))
  where
    at_index :
        (i : ℕ)
        → ((j : ℕ) → j < i → (entry v.blocks j).size < size)
          × (i ≤ v.using_blocks)
          × (i < v.using_blocks → size ≤ (entry v.blocks i).size)
        → Allocated v size (
            if ltb i v.using_blocks
            then (
              success,
              some (entry v.blocks i).start,
              (vmm_remove_range v (entry v.blocks i).start size).1,
            )
            else (out_of_resource, none, v))
    at_index i (small, _, large) = elim (dec_lt i v.using_blocks) [
      | no past ↦
          rw (le→ltb i v.using_blocks (omega arith)) (inr (refl, λ j h. small j (omega arith)))
      | yes inside ↦ rw (lt→ltb i v.using_blocks inside) (
          of_removal v size valid pos i inside (large inside) (
            vmm_remove_range-Removed v (entry v.blocks i).start size valid pos
              (omega (arith, large inside, valid.bounded i inside))))
    ]

-- `a` is in block `i`, or is the address one past its end.
abbrev pub Touches : Vmm → ℕ → ℕ → Type 0
Touches v a i =
    (i < v.using_blocks)
    × ((entry v.blocks i).start ≤ a)
    × (a ≤ (entry v.blocks i).start + (entry v.blocks i).size)

find_from_lem :
    (v : Vmm) (a : ℕ)
    → IsValid v
    → (left i : ℕ) → i + left ≡ v.using_blocks
    → ((j : ℕ) → j < i → ¬ Touches v a j)
    → ((find_from v.blocks a left i ≡ 1) × ((j : ℕ) × Touches v a j))
      ⊎ ((find_from v.blocks a left i ≡ 0) × ((j : ℕ) → ¬ Touches v a j))
unfolding find_from
find_from_lem v a valid zero i e nowhere = inr (refl, λ j h. nowhere j (omega (arith, h.0)) h)
find_from_lem v a valid (suc left) i e nowhere =
    let used : i < v.using_blocks = omega arith in
    let rest = find_from_lem v a valid left (i + 1) (omega arith) in
    let skip : ¬ Touches v a i → (j : ℕ) → j < i + 1 → ¬ Touches v a j = λ fails j lt h.
      elim (ℕ_discrete j i) [
        | yes here ↦ fails (rw here at h)
        | no before ↦ nowhere j (omega arith) h
      ] in
    rw (end_exact v valid i used) (elim (dec_le (entry v.blocks i).start a) [
      | no below ↦
          rw (lt→leb a (entry v.blocks i).start (omega arith)) (rest (skip (λ h. below h.1)))
      | yes from ↦ elim (dec_le a ((entry v.blocks i).start + (entry v.blocks i).size)) [
        | yes upto ↦
            rw
              (
                le→leb (entry v.blocks i).start a from,
                le→leb a ((entry v.blocks i).start + (entry v.blocks i).size) upto,
              )
              (inl (refl, (i, (used, from, upto))))
        | no above ↦
            rw
              (
                le→leb (entry v.blocks i).start a from,
                lt→leb ((entry v.blocks i).start + (entry v.blocks i).size) a (omega arith),
              )
              (rest (skip (λ h. above h.2)))
      ]
    ])

-- `vmm_find` on a valid array. Either it returns 1 and some block in use holds the address or ends
-- exactly at it; or it returns 0 and there is no such block, so that the array holds no such address.
pub vmm_find-Touches :
    (v : Vmm) (a : ℕ)
    → IsValid v
    → ((vmm_find v a ≡ 1) × ((i : ℕ) × Touches v a i))
      ⊎ ((vmm_find v a ≡ 0) × ((i : ℕ) → ¬ Touches v a i) × (holds v a ≡ false))
unfolding vmm_find
vmm_find-Touches v a valid =
    elim (find_from_lem v a valid v.using_blocks 0 (omega arith) (λ j h. absurd (omega arith))) [
      | inl found ↦ inl found
      | inr (e, nowhere) ↦
          inr
            (e, nowhere, covered_none v.blocks v.using_blocks a (λ j h. ground (arith, nowhere j)))
    ]
