-- ===== src/Vmm/Cover.antt =====
-- src/mem/vmm.c: the set of addresses that an array of blocks stands for.
use native.Mathlib.Decide.{ℕ_discrete}
use clay_figure_kernel.Base.{
  ℕ, zero, suc, ◌+◌, ◌≤◌, ◌<◌, ◌≡◌, ◌≢◌, refl, ap, ap₂, sym, ◌∙◌, arith, Bool, true, false, ◌&&◌,
  ◌||◌, List, ltb, leb,
}
use clay_figure_kernel.Vmm.{Block, Vmm, entry}

-- `a` lies in the `n` bytes from `s` on.
abbrev pub in_range : ℕ → ℕ → ℕ → Bool
in_range s n a = leb s a && ltb a (s + n)

abbrev pub in_block : Block → ℕ → Bool
in_block b a = in_range b.start b.size a

-- One of the first `n` blocks holds `a`.
unfoldable pub covered : List Block → ℕ → ℕ → Bool
covered blocks zero a = false
covered blocks (suc n) a = covered blocks n a || in_block (entry blocks n) a

abbrev pub holds : Vmm → ℕ → Bool
holds v a = covered v.blocks v.using_blocks a

pub covered_same :
    (bs cs : List Block) (n a : ℕ)
    → ((j : ℕ) → j < n → entry cs j ≡ entry bs j)
    → covered cs n a ≡ covered bs n a
unfolding covered
covered_same bs cs zero a same = refl
covered_same bs cs (suc n) a same =
    ap₂ (λ x (b : Block). x || in_block b a) (covered_same bs cs n a (λ j h. same j (omega arith)))
      (same n (omega arith))

or_swap : (x y z : Bool) → ((x || y) || z) ≡ ((x || z) || y)
or_swap x y z = ground arith

-- Where only block `i` differs.
pub covered_set :
    (bs cs : List Block) (i n a : ℕ)
    → i < n
    → ((j : ℕ) → j ≢ i → entry cs j ≡ entry bs j)
    → (covered cs n a || in_block (entry bs i) a) ≡ (covered bs n a || in_block (entry cs i) a)
unfolding covered
covered_set bs cs i zero a h same = absurd (omega arith)
covered_set bs cs i (suc n) a h same = elim (ℕ_discrete i n) [
  | yes last ↦ rw last (
      ap (λ x. (x || in_block (entry cs n) a) || in_block (entry bs n) a)
        (covered_same bs cs n a (λ j lt. same j (omega arith)))
      ∙ or_swap (covered bs n a) (in_block (entry cs n) a) (in_block (entry bs n) a))
  | no below ↦
      or_swap (covered cs n a) (in_block (entry cs n) a) (in_block (entry bs i) a)
      ∙ ap₂ (λ x (b : Block). x || in_block b a) (covered_set bs cs i n a (omega arith) same)
          (same n (omega arith))
      ∙ or_swap (covered bs n a) (in_block (entry cs i) a) (in_block (entry bs n) a)
]

-- Where block `i` is put in, and those from `i` on come one later.
pub covered_insert :
    (bs cs : List Block) (i n a : ℕ)
    → i ≤ n
    → ((j : ℕ) → j < i → entry cs j ≡ entry bs j)
    → ((j : ℕ) → i ≤ j → j < n → entry cs (suc j) ≡ entry bs j)
    → covered cs (suc n) a ≡ (covered bs n a || in_block (entry cs i) a)
unfolding covered
covered_insert bs cs i zero a h before after = let e : i ≡ 0 = omega arith in rw e
covered_insert bs cs i (suc n) a h before after = elim (ℕ_discrete i (suc n)) [
  | yes last ↦ rw last (
      ap (λ x. x || in_block (entry cs (suc n)) a)
        (covered_same bs cs (suc n) a (λ j lt. before j (omega arith))))
  | no below ↦
      ap₂ (λ x (b : Block). x || in_block b a)
        (covered_insert bs cs i n a (omega arith) before (λ j lo hi. after j lo (omega arith)))
        (after n (omega arith) (omega arith))
      ∙ or_swap (covered bs n a) (in_block (entry cs i) a) (in_block (entry bs n) a)
]

or_true : (b : Bool) → (b || true) ≡ true
or_true true = refl
or_true false = refl

-- An address in a block is covered.
pub covered_of_block :
    (bs : List Block) (n i a : ℕ) → i < n → in_block (entry bs i) a ≡ true → covered bs n a ≡ true
unfolding covered
covered_of_block bs zero i a h e = absurd (omega arith)
covered_of_block bs (suc n) i a h e = elim (ℕ_discrete i n) [
  | yes last ↦
      ap (λ x. covered bs n a || x) (ap (λ (k : ℕ). in_block (entry bs k) a) (sym last) ∙ e)
      ∙ or_true (covered bs n a)
  | no below ↦ ap (λ x. x || in_block (entry bs n) a) (covered_of_block bs n i a (omega arith) e)
]

pub covered_none :
    (bs : List Block) (n a : ℕ)
    → ((j : ℕ) → j < n → in_block (entry bs j) a ≡ false)
    → covered bs n a ≡ false
unfolding covered
covered_none bs zero a none = refl
covered_none bs (suc n) a none =
    ap₂ ◌||◌ (covered_none bs n a (λ j h. none j (omega arith))) (none n (omega arith))
