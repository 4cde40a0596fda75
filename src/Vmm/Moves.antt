-- ===== src/Vmm/Moves.antt =====
-- src/mem/vmm.c: what `move_forward` and `move_backward` do to the array, entry by entry.
use native.Mathlib.Decide.{ℕ_discrete}
use clay_figure_kernel.Base.{
  ℕ, zero, suc, ◌+◌, ◌≤◌, ◌<◌, ◌≡◌, ◌≢◌, ◌⊎◌, refl, ap, sym, ◌∙◌, arith, List, set, length,
  length-set, set-set_comm, get_or-set_self, get_or-set_ne,
}
use clay_figure_kernel.Vmm.{Block, entry, no_block, forward_from, backward_to}

pub length-forward_from :
    (bs : List Block) (i left : ℕ) → length (forward_from bs i left) ≡ length bs
unfolding forward_from
length-forward_from bs i zero = refl
length-forward_from bs i (suc left) =
    length-forward_from (set bs i (entry bs (i + 1))) (i + 1) left
    ∙ length-set bs i (entry bs (i + 1))

pub length-backward_to : (bs : List Block) (i left : ℕ) → length (backward_to bs i left) ≡ length bs
unfolding backward_to
length-backward_to bs i zero = refl
length-backward_to bs i (suc left) =
    length-backward_to (set bs (i + suc left) (entry bs (i + left))) i left
    ∙ length-set bs (i + suc left) (entry bs (i + left))

pub entry-set_self :
    (bs : List Block) (i : ℕ) (b : Block) → i < length bs → entry (set bs i b) i ≡ b
entry-set_self bs i b h = get_or-set_self bs i b no_block h

pub entry-set_ne :
    (bs : List Block) (i j : ℕ) (b : Block) → i ≢ j → entry (set bs i b) j ≡ entry bs j
entry-set_ne bs i j b h = get_or-set_ne bs i j b no_block h

pub forward_outside :
    (bs : List Block) (i left j : ℕ)
    → (j < i) ⊎ (i + left ≤ j)
    → entry (forward_from bs i left) j ≡ entry bs j
unfolding forward_from
forward_outside bs i zero j out = refl
forward_outside bs i (suc left) j out =
    forward_outside (set bs i (entry bs (i + 1))) (i + 1) left j (omega arith)
    ∙ entry-set_ne bs i j (entry bs (i + 1)) (omega arith)

pub forward_inside :
    (bs : List Block) (i left j : ℕ)
    → i ≤ j
    → j < i + left
    → i + left ≤ length bs
    → entry (forward_from bs i left) j ≡ entry bs (suc j)
unfolding forward_from
forward_inside bs i zero j lo hi room = absurd (omega arith)
forward_inside bs i (suc left) j lo hi room = elim (ℕ_discrete j i) [
  | yes here ↦
      let next : i + 1 ≡ suc j = omega arith in
      forward_outside (set bs i (entry bs (i + 1))) (i + 1) left j (omega arith)
      ∙ ap (λ (k : ℕ). entry (set bs i (entry bs (i + 1))) k) here
      ∙ entry-set_self bs i (entry bs (i + 1)) (omega arith)
      ∙ ap (λ (k : ℕ). entry bs k) next
  | no later ↦
      forward_inside (set bs i (entry bs (i + 1))) (i + 1) left j (omega arith) (omega arith)
        (omega (arith, length-set bs i (entry bs (i + 1))))
      ∙ entry-set_ne bs i (suc j) (entry bs (i + 1)) (omega arith)
]

pub backward_outside :
    (bs : List Block) (i left j : ℕ)
    → (j ≤ i) ⊎ (i + left < j)
    → entry (backward_to bs i left) j ≡ entry bs j
unfolding backward_to
backward_outside bs i zero j out = refl
backward_outside bs i (suc left) j out =
    backward_outside (set bs (i + suc left) (entry bs (i + left))) i left j (omega arith)
    ∙ entry-set_ne bs (i + suc left) j (entry bs (i + left)) (omega arith)

pub backward_inside :
    (bs : List Block) (i left j : ℕ)
    → i ≤ j
    → j < i + left
    → i + left < length bs
    → entry (backward_to bs i left) (suc j) ≡ entry bs j
unfolding backward_to
backward_inside bs i zero j lo hi room = absurd (omega arith)
backward_inside bs i (suc left) j lo hi room = elim (ℕ_discrete j (i + left)) [
  | yes here ↦
      let next : suc j ≡ i + suc left = omega arith in
      backward_outside (set bs (i + suc left) (entry bs (i + left))) i left (suc j) (omega arith)
      ∙ ap (λ (k : ℕ). entry (set bs (i + suc left) (entry bs (i + left))) k) next
      ∙ entry-set_self bs (i + suc left) (entry bs (i + left)) (omega arith)
      ∙ ap (λ (k : ℕ). entry bs k) (sym here)
  | no before ↦
      backward_inside (set bs (i + suc left) (entry bs (i + left))) i left j lo (omega arith)
        (omega (arith, length-set bs (i + suc left) (entry bs (i + left))))
      ∙ entry-set_ne bs (i + suc left) j (entry bs (i + left)) (omega arith)
]

-- A write below the part that moves can be made before or after.
pub forward-set :
    (bs : List Block) (k i left : ℕ) (b : Block)
    → k < i
    → forward_from (set bs k b) i left ≡ set (forward_from bs i left) k b
unfolding forward_from
forward-set bs k i zero b h = refl
forward-set bs k i (suc left) b h =
    ap (λ (c : Block). forward_from (set (set bs k b) i c) (i + 1) left)
      (entry-set_ne bs k (i + 1) b (omega arith))
    ∙ ap (λ (cs : List Block). forward_from cs (i + 1) left)
        (set-set_comm bs k i b (entry bs (i + 1)) (omega arith))
    ∙ forward-set (set bs i (entry bs (i + 1))) k (i + 1) left b (omega arith)
