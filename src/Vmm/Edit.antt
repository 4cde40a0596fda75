-- ===== src/Vmm/Edit.antt =====
-- src/mem/vmm.c: the three changes to the array of which `vmm_add_range` and `vmm_remove_range` are
-- made: a block is replaced, put in, or taken out.
use native.Mathlib.Decide.{ℕ_discrete, dec_lt}
use clay_figure_kernel.Base.{
  ℕ, suc, ◌+◌, ◌-◌, ◌^◌, ◌≤◌, ◌<◌, ◌≡◌, ◌≢◌, inl, refl, ap, sym, ◌∙◌, arith, ◌||◌, length, set,
  length-set,
}
use clay_figure_kernel.Vmm.{
  Block, Vmm, entry, move_forward, move_backward, insert_block, backward_to,
}
use clay_figure_kernel.Vmm.Cover.{in_block, covered, holds, covered_set, covered_insert}
use clay_figure_kernel.Vmm.Moves.{
  length-forward_from, length-backward_to, entry-set_self, entry-set_ne, forward_outside,
  forward_inside, backward_outside, backward_inside,
}
use clay_figure_kernel.Vmm.Valid.{IsValid}

-- `b` may stand between block `i - 1` and the block with index `j`.
pub record Fits (v : Vmm) (i j : ℕ) (b : Block) : Type 0 where
  pub full : 0 < b.size
  pub bounded : b.start + b.size < 2 ^ 64
  pub after : (k : ℕ) → suc k ≡ i → (entry v.blocks k).start + (entry v.blocks k).size < b.start
  pub before : j < v.using_blocks → b.start + b.size < (entry v.blocks j).start

module _ (v : Vmm) (valid : IsValid v) (i : ℕ) where
  abbrev pub replace : Block → Vmm
  replace b = record v { blocks = set v.blocks i b }

  pub entry-replace_self : (b : Block) → i < v.using_blocks → entry (replace b).blocks i ≡ b
  entry-replace_self b inside =
      entry-set_self v.blocks i b (omega (arith, valid.stored, valid.fits))

  pub entry-replace_ne : (b : Block) (j : ℕ) → i ≢ j → entry (replace b).blocks j ≡ entry v.blocks j
  entry-replace_ne b j ne = entry-set_ne v.blocks i j b ne

  pub replace-IsValid : (b : Block) → i < v.using_blocks → Fits v i (suc i) b → IsValid (replace b)
  replace-IsValid b inside fit = record {
    stored = omega (arith, length-set v.blocks i b, valid.stored);
    fits = valid.fits;
    full = λ j h. elim (ℕ_discrete i j) [
      | yes e ↦ rw (← e, entry-replace_self b inside) fit.full
      | no ne ↦ rw (entry-replace_ne b j ne) (valid.full j h)
    ];
    bounded = λ j h. elim (ℕ_discrete i j) [
      | yes e ↦ rw (← e, entry-replace_self b inside) fit.bounded
      | no ne ↦ rw (entry-replace_ne b j ne) (valid.bounded j h)
    ];
    apart = λ j h. elim (ℕ_discrete i j) [
      | yes e ↦
          rw (← e, entry-replace_self b inside, entry-replace_ne b (suc i) (omega arith))
            (fit.before (omega arith))
      | no ne ↦ elim (ℕ_discrete (suc j) i) [
        | yes e ↦ rw (e, entry-replace_self b inside, entry-replace_ne b j ne) (fit.after j e)
        | no far ↦
            rw (entry-replace_ne b j ne, entry-replace_ne b (suc j) (omega arith)) (valid.apart j h)
      ]
    ];
  }

  pub holds-replace :
      (b : Block) (a : ℕ)
      → i < v.using_blocks
      → (holds (replace b) a || in_block (entry v.blocks i) a) ≡ (holds v a || in_block b a)
  holds-replace b a inside =
      covered_set v.blocks (replace b).blocks i v.using_blocks a inside
        (λ j ne. entry-replace_ne b j (λ e. ne (sym e)))
      ∙ ap (λ (c : Block). holds v a || in_block c a) (entry-replace_self b inside)

  abbrev pub removed : Vmm
  removed = move_forward (record v { using_blocks = v.using_blocks - 1 }) i

  pub using-removed : removed.using_blocks ≡ v.using_blocks - 1
  unfolding move_forward
  using-removed = refl

  pub entry-removed_below : (j : ℕ) → j < i → entry removed.blocks j ≡ entry v.blocks j
  unfolding move_forward
  entry-removed_below j h = forward_outside v.blocks i (v.using_blocks - 1 - i) j (inl h)

  pub entry-removed_from :
      (j : ℕ) → i ≤ j → suc j < v.using_blocks → entry removed.blocks j ≡ entry v.blocks (suc j)
  unfolding move_forward
  entry-removed_from j lo hi =
      forward_inside v.blocks i (v.using_blocks - 1 - i) j lo (omega arith)
        (omega (arith, valid.stored, valid.fits))

  pub removed-IsValid : i < v.using_blocks → IsValid removed
  unfolding move_forward
  removed-IsValid inside = record {
    stored = omega (arith, length-forward_from v.blocks i (v.using_blocks - 1 - i), valid.stored);
    fits = omega (arith, valid.fits);
    full = λ j h. elim (dec_lt j i) [
      | yes below ↦ rw (entry-removed_below j below) (valid.full j (omega arith))
      | no from ↦
          rw (entry-removed_from j (omega arith) (omega arith)) (valid.full (suc j) (omega arith))
    ];
    bounded = λ j h. elim (dec_lt j i) [
      | yes below ↦ rw (entry-removed_below j below) (valid.bounded j (omega arith))
      | no from ↦
          rw (entry-removed_from j (omega arith) (omega arith))
            (valid.bounded (suc j) (omega arith))
    ];
    apart = λ j h. elim (dec_lt (suc j) i) [
      | yes below ↦
          rw (entry-removed_below j (omega arith), entry-removed_below (suc j) below)
            (valid.apart j (omega arith))
      | no above ↦ elim (dec_lt j i) [
        | yes last ↦
            rw (entry-removed_below j last, entry-removed_from (suc j) (omega arith) (omega arith))
              (omega (arith, valid.apart j (omega arith), valid.apart (suc j) (omega arith)))
        | no from ↦
            rw
              (
                entry-removed_from j (omega arith) (omega arith),
                entry-removed_from (suc j) (omega arith) (omega arith),
              )
              (valid.apart (suc j) (omega arith))
      ]
    ];
  }

  pub holds-removed :
      (a : ℕ) → i < v.using_blocks → holds v a ≡ (holds removed a || in_block (entry v.blocks i) a)
  unfolding move_forward
  holds-removed a inside =
      let e : v.using_blocks ≡ suc (v.using_blocks - 1) = omega arith in
      ap (λ (n : ℕ). covered v.blocks n a) e
      ∙ covered_insert removed.blocks v.blocks i (v.using_blocks - 1) a (omega arith)
          (λ j h. sym (entry-removed_below j h))
          (λ j lo hi. sym (entry-removed_from j lo (omega arith)))

  pub entry-inserted_below :
      (b : Block) (j : ℕ) → j < i → entry (insert_block v i b).blocks j ≡ entry v.blocks j
  unfolding insert_block move_backward
  entry-inserted_below b j h =
      entry-set_ne (backward_to v.blocks i (v.using_blocks - i)) i j b (omega arith)
      ∙ backward_outside v.blocks i (v.using_blocks - i) j (inl (omega arith))

  pub entry-inserted_self :
      (b : Block)
      → i ≤ v.using_blocks
      → v.using_blocks < v.total_blocks
      → entry (insert_block v i b).blocks i ≡ b
  unfolding insert_block move_backward
  entry-inserted_self b inside room =
      entry-set_self (backward_to v.blocks i (v.using_blocks - i)) i b
        (omega (arith, length-backward_to v.blocks i (v.using_blocks - i), valid.stored))

  pub entry-inserted_from :
      (b : Block) (j : ℕ)
      → i ≤ j
      → j < v.using_blocks
      → v.using_blocks < v.total_blocks
      → entry (insert_block v i b).blocks (suc j) ≡ entry v.blocks j
  unfolding insert_block move_backward
  entry-inserted_from b j lo hi room =
      entry-set_ne (backward_to v.blocks i (v.using_blocks - i)) i (suc j) b (omega arith)
      ∙ backward_inside v.blocks i (v.using_blocks - i) j lo (omega arith)
          (omega (arith, valid.stored))

  pub holds-inserted :
      (b : Block) (a : ℕ)
      → i ≤ v.using_blocks
      → v.using_blocks < v.total_blocks
      → holds (insert_block v i b) a ≡ (holds v a || in_block b a)
  unfolding insert_block
  holds-inserted b a inside room =
      let e : v.using_blocks + 1 ≡ suc v.using_blocks = omega arith in
      ap (λ (n : ℕ). covered (insert_block v i b).blocks n a) e
      ∙ covered_insert v.blocks (insert_block v i b).blocks i v.using_blocks a inside
          (λ j h. entry-inserted_below b j h) (λ j lo hi. entry-inserted_from b j lo hi room)
      ∙ ap (λ (c : Block). holds v a || in_block c a) (entry-inserted_self b inside room)

  -- What holds of the new block and of the old ones holds of all.
  inserted_all :
      (P : Block → Type 0) (b : Block)
      → i ≤ v.using_blocks
      → v.using_blocks < v.total_blocks
      → P b
      → ((j : ℕ) → j < v.using_blocks → P (entry v.blocks j))
      → (j : ℕ) → j < v.using_blocks + 1
      → P (entry (insert_block v i b).blocks j)
  inserted_all P b inside room new old j h = elim (ℕ_discrete i j) [
    | yes e ↦ rw (← e, entry-inserted_self b inside room) new
    | no ne ↦ elim (dec_lt j i) [
      | yes below ↦ rw (entry-inserted_below b j below) (old j (omega arith))
      | no above ↦
          let e : suc (j - 1) ≡ j = omega arith in
          rw (← e, entry-inserted_from b (j - 1) (omega arith) (omega arith) room)
            (old (j - 1) (omega arith))
    ]
  ]

  inserted_apart :
      (b : Block)
      → i ≤ v.using_blocks
      → v.using_blocks < v.total_blocks
      → Fits v i i b
      → (j : ℕ) → suc j < v.using_blocks + 1
      → (entry (insert_block v i b).blocks j).start + (entry (insert_block v i b).blocks j).size
        < (entry (insert_block v i b).blocks (suc j)).start
  inserted_apart b inside room fit j h = elim (dec_lt (suc j) i) [
    | yes below ↦
        rw (entry-inserted_below b j (omega arith), entry-inserted_below b (suc j) below)
          (valid.apart j (omega arith))
    | no above ↦ elim (ℕ_discrete (suc j) i) [
      | yes e ↦
          rw (entry-inserted_below b j (omega arith), e, entry-inserted_self b inside room)
            (fit.after j e)
      | no ne ↦ elim (ℕ_discrete i j) [
        | yes e ↦
            rw
              (
                ← e,
                entry-inserted_self b inside room,
                entry-inserted_from b i (omega arith) (omega arith) room,
              )
              (fit.before (omega arith))
        | no far ↦
            let e : suc (j - 1) ≡ j = omega arith in
            rw
              (
                entry-inserted_from b j (omega arith) (omega arith) room,
                ← e,
                entry-inserted_from b (j - 1) (omega arith) (omega arith) room,
              )
              (valid.apart (j - 1) (omega arith))
      ]
    ]
  ]

  pub inserted-IsValid :
      (b : Block)
      → i ≤ v.using_blocks
      → v.using_blocks < v.total_blocks
      → Fits v i i b
      → IsValid (insert_block v i b)
  unfolding insert_block move_backward
  inserted-IsValid b inside room fit = record {
    stored = inserted_stored;
    fits = inserted_fits;
    full = inserted_all (λ c. 0 < c.size) b inside room fit.full valid.full;
    bounded = inserted_all (λ c. c.start + c.size < 2 ^ 64) b inside room fit.bounded valid.bounded;
    apart = inserted_apart b inside room fit;
  }
    where
      inserted_stored : v.total_blocks ≤ length (insert_block v i b).blocks
      inserted_stored = omega (
        arith,
        length-set (backward_to v.blocks i (v.using_blocks - i)) i b,
        length-backward_to v.blocks i (v.using_blocks - i),
        valid.stored,
      )

      inserted_fits : v.using_blocks + 1 ≤ v.total_blocks
      inserted_fits = omega arith
