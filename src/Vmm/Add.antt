-- ===== src/Vmm/Add.antt =====
-- src/mem/vmm.c: `vmm_add_range` adds exactly the range, merged with its neighbours.
use native.Mathlib.Decide.{ℕ_discrete, dec_lt}
use clay_figure_kernel.Base.{
  ℕ, zero, suc, ◌+◌, ◌-◌, ◌^◌, ◌≤◌, ◌<◌, ◌≡◌, refl, ap, ◌∙◌, arith, true, false, List, lt→ltb,
  le→ltb, ne→ne, ==_iff,
}
use clay_figure_kernel.Vmm.{Block, Vmm, entry, find_above, vmm_add_range}
use clay_figure_kernel.Vmm.Cover.{in_range, holds}
use clay_figure_kernel.Vmm.Valid.{IsValid, end_exact}
use clay_figure_kernel.Vmm.Grow.{Added, merge_previous-Added}
use clay_figure_kernel.Vmm.Apart.{add_apart-Added}

find_above_lem :
    (bs : List Block) (s left i n : ℕ)
    → i + left ≡ n
    → (i ≤ find_above bs s left i)
      × (find_above bs s left i ≤ n)
      × ((j : ℕ) → i ≤ j → j < find_above bs s left i → (entry bs j).start ≤ s)
      × (find_above bs s left i < n → s < (entry bs (find_above bs s left i)).start)
unfolding find_above
find_above_lem bs s zero i n e =
    (omega arith, omega arith, λ j lo hi. absurd (omega arith), λ h. absurd (omega arith))
find_above_lem bs s (suc left) i n e = elim (dec_lt s (entry bs i).start) [
  | yes above ↦
      rw (lt→ltb s (entry bs i).start above)
        (omega arith, omega arith, λ j lo hi. absurd (omega arith), λ _. above)
  | no below ↦
      let rest = find_above_lem bs s left (i + 1) n (omega arith) in
      rw (le→ltb s (entry bs i).start (omega arith)) (
        omega arith,
        rest.1,
        λ j lo hi. elim (ℕ_discrete j i) [
          | yes here ↦ rw here (omega arith)
          | no later ↦ rest.2 j (omega arith) hi
        ],
        rest.3,
      )
]

suc-eq : (k j : ℕ) → suc j ≡ suc k → k ≡ j
suc-eq k j h = omega arith

-- `vmm_add_range`, on a valid array, of at least one byte, in a range that ends below 2^64 and of
-- which no address is in the array yet. Either it returns K_SUCCESS and leaves a valid array that holds just the addresses that it
-- held and those of the range, or it returns K_ERROR and leaves the array, all of whose blocks are
-- in use, as it was.
pub vmm_add_range-Added :
    (v : Vmm) (start size : ℕ)
    → IsValid v
    → 0 < size
    → start + size < 2 ^ 64
    → ((a : ℕ) → in_range start size a ≡ true → holds v a ≡ false)
    → Added v start size (vmm_add_range v start size)
unfolding vmm_add_range
vmm_add_range-Added v s size valid pos small fresh =
    at_index (find_above v.blocks s v.using_blocks 0) refl
      (find_above_lem v.blocks s v.using_blocks 0 v.using_blocks (omega arith))
  where
    at_index :
        (i : ℕ)
        → find_above v.blocks s v.using_blocks 0 ≡ i
        → (0 ≤ i)
          × (i ≤ v.using_blocks)
          × ((j : ℕ) → 0 ≤ j → j < i → (entry v.blocks j).start ≤ s)
          × (i < v.using_blocks → s < (entry v.blocks i).start)
        → Added v s size (vmm_add_range v s size)
    at_index zero e (_, inside, low, high) = rw e (
        add_apart-Added v valid s size pos small fresh 0 inside (λ j. low j (omega arith)) high
          (λ k h. absurd (omega arith)))
    at_index (suc k) e (_, inside, low, high) =
        let used : k < v.using_blocks = omega arith in
        let index : suc k - 1 ≡ k = omega arith in
        let exact = end_exact v valid k used in
        elim (ℕ_discrete ((entry v.blocks k).start + (entry v.blocks k).size) s) [
          | yes touch ↦
              rw
                (
                  e,
                  index,
                  lt→ltb 0 (suc k) (omega arith),
                  exact,
                  (==_iff ((entry v.blocks k).start + (entry v.blocks k).size) s).1 touch,
                )
                (merge_previous-Added v valid s size pos small fresh (suc k) inside
                  (λ j. low j (omega arith)) high k refl touch)
          | no gap ↦
              rw
                (
                  e,
                  index,
                  lt→ltb 0 (suc k) (omega arith),
                  exact,
                  ne→ne ((entry v.blocks k).start + (entry v.blocks k).size) s gap,
                )
                (add_apart-Added v valid s size pos small fresh (suc k) inside
                  (λ j. low j (omega arith)) high
                  (λ j h t. gap (
                    ap (λ (n : ℕ). (entry v.blocks n).start + (entry v.blocks n).size)
                      (suc-eq k j h)
                    ∙ t)))
        ]
