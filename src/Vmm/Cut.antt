-- ===== src/Vmm/Cut.antt =====
-- src/mem/vmm.c: the cases of `vmm_remove_range`, each at the block that holds the range.
use native.Mathlib.Decide.{ℕ_discrete, dec_lt}
use clay_figure_kernel.Base.{
  ℕ, suc, ◌+◌, ◌-◌, ◌≤◌, ◌<◌, ◌≡◌, ◌≢◌, ◌⊎◌, inl, inr, refl, ap, ap₂, sym, ◌∙◌, arith, Bool, true,
  false, not, ◌&&◌, ◌||◌, ◌==◌, sub64_exact, Status, success, not_found, out_of_resource, lt→ltb,
  le→ltb, le→leb, lt→leb, ==_iff, ne→ne, lt→ne,
}
use clay_figure_kernel.Vmm.{Block, Vmm, entry, block_end, insert_block, cut_block}
use clay_figure_kernel.Vmm.Cover.{in_block, in_range, holds, covered_of_block, covered_none}
use clay_figure_kernel.Vmm.Valid.{IsValid, end_exact, other_block}
use clay_figure_kernel.Vmm.Edit.{
  Fits, replace, replace-IsValid, holds-replace, entry-replace_self, entry-replace_ne, removed,
  removed-IsValid, using-removed, holds-removed, entry-removed_below, entry-removed_from,
  inserted-IsValid, holds-inserted,
}

-- Block `i` holds the `size` bytes from `s` on.
abbrev pub Holds : Vmm → ℕ → ℕ → ℕ → Type 0
Holds v i s size =
    (i < v.using_blocks)
    × ((entry v.blocks i).start ≤ s)
    × (s + size ≤ (entry v.blocks i).start + (entry v.blocks i).size)

-- The three ways in which the call ends.
abbrev pub Removed : Vmm → ℕ → ℕ → Status × Vmm → Type 0
Removed v s size r =
    ((v' : Vmm) × (r ≡ (success, v'))
      × IsValid v'
      × ((a : ℕ) → holds v' a ≡ (holds v a && not (in_range s size a)))
      × ((i : ℕ) × Holds v i s size))
    ⊎ ((r ≡ (not_found, v)) × ((i : ℕ) → ¬ Holds v i s size))
    ⊎ ((r ≡ (out_of_resource, v))
        × (v.using_blocks ≡ v.total_blocks)
        × ((i : ℕ) × (Holds v i s size × ((entry v.blocks i).start < s))))

-- What is left of a block, told from what the others hold.
cut_holds :
    (new old before left range : Bool)
    → (new || old) ≡ (before || left)
    → old ≡ (left || range)
    → (old ≡ true → before ≡ true)
    → (left ≡ true → new ≡ true)
    → (range ≡ true → new ≡ false)
    → new ≡ (before && not range)
cut_holds new old before left range e f g h k = ground arith

gone_holds :
    (new before range : Bool)
    → before ≡ (new || range)
    → (range ≡ true → new ≡ false)
    → new ≡ (before && not range)
gone_holds new before range e k = ground arith

split_holds :
    (new middle old before front back range : Bool)
    → new ≡ (middle || back)
    → (middle || old) ≡ (before || front)
    → old ≡ (front || (range || back))
    → (old ≡ true → before ≡ true)
    → (front ≡ true → middle ≡ true)
    → (range ≡ true → new ≡ false)
    → new ≡ (before && not range)
split_holds new middle old before front back range d e f g h k = ground arith

module _ (v : Vmm) (valid : IsValid v) (s size : ℕ) (pos : 0 < size) (i : ℕ)
    (inside : i < v.using_blocks) (from : (entry v.blocks i).start ≤ s)
    (upto : s + size ≤ (entry v.blocks i).start + (entry v.blocks i).size) where
  abbrev old : Block
  old = entry v.blocks i

  in_old : (a : ℕ) → in_range s size a ≡ true → in_block old a ≡ true
  in_old a e = ground arith

  others :
      (a j : ℕ)
      → in_range s size a ≡ true
      → j < v.using_blocks
      → i ≢ j
      → in_block (entry v.blocks j) a ≡ false
  others a j e h ne = other_block v valid i j a inside h ne (in_old a e)

  -- A block in place of the old one that has no address of the range.
  replaced_none :
      (b : Block) (a : ℕ)
      → (in_range s size a ≡ true → in_block b a ≡ false)
      → in_range s size a ≡ true
      → holds (replace v valid i b) a ≡ false
  replaced_none b a outside e = covered_none (replace v valid i b).blocks v.using_blocks a (λ j h.
      elim (ℕ_discrete i j) [
        | yes here ↦ rw (← here, entry-replace_self v valid i b inside) (outside e)
        | no ne ↦ rw (entry-replace_ne v valid i b j ne) (others a j e h ne)
      ])

  replaced_holds :
      (b : Block)
      → ((a : ℕ) → in_block old a ≡ (in_block b a || in_range s size a))
      → ((a : ℕ) → in_range s size a ≡ true → in_block b a ≡ false)
      → (a : ℕ) → holds (replace v valid i b) a ≡ (holds v a && not (in_range s size a))
  replaced_holds b parts apart a =
      cut_holds (holds (replace v valid i b) a) (in_block old a) (holds v a) (in_block b a)
        (in_range s size a) (holds-replace v valid i b a inside) (parts a)
        (covered_of_block v.blocks v.using_blocks i a inside)
        (λ e.
          covered_of_block (replace v valid i b).blocks v.using_blocks i a inside
            (rw (entry-replace_self v valid i b inside) e))
        (replaced_none b a (apart a))

  -- The range is the whole block.
  gone_none : (a : ℕ) → in_range s size a ≡ true → holds (removed v valid i) a ≡ false
  gone_none a e = covered_none (removed v valid i).blocks (removed v valid i).using_blocks a (λ j h.
      elim (dec_lt j i) [
        | yes below ↦
            rw (entry-removed_below v valid i j below) (others a j e (omega arith) (omega arith))
        | no above ↦
            rw (entry-removed_from v valid i j (omega arith) (next_used j h))
              (others a (suc j) e (next_used j h) (omega arith))
      ])
    where
      next_used : (j : ℕ) → j < (removed v valid i).using_blocks → suc j < v.using_blocks
      next_used j h = omega (arith, using-removed v valid i)

  whole :
      s ≡ old.start
      → s + size ≡ old.start + old.size
      → (a : ℕ) → holds (removed v valid i) a ≡ (holds v a && not (in_range s size a))
  whole left right a =
      gone_holds (holds (removed v valid i) a) (holds v a) (in_range s size a)
        (holds-removed v valid i a inside ∙ ap (λ x. holds (removed v valid i) a || x) same)
        (gone_none a)
    where
      same : in_block old a ≡ in_range s size a
      same = ground arith

  -- The parts of the block in front of the range and behind it.
  abbrev front : Block
  front = record { start = old.start; size = s - old.start }

  abbrev back : Block
  back = record { start = s + size; size = old.start + old.size - (s + size) }

  front-Fits : old.start < s → Fits v i (suc i) front
  front-Fits h = record {
    full = omega arith;
    bounded = omega (arith, valid.bounded i inside);
    after = λ k e. rw (← e) (valid.apart k (omega arith));
    before = λ k. omega (arith, valid.apart i k);
  }

  back-Fits : s + size < old.start + old.size → Fits v i (suc i) back
  back-Fits h = record {
    full = omega arith;
    bounded = omega (arith, valid.bounded i inside);
    after = λ k e. omega (arith, before_i k e);
    before = λ k. omega (arith, valid.apart i k);
  }
    where
      before_i :
          (k : ℕ) → suc k ≡ i → (entry v.blocks k).start + (entry v.blocks k).size < old.start
      before_i k e = rw (← e) (valid.apart k (omega arith))

  front_out : (a : ℕ) → in_range s size a ≡ true → in_block front a ≡ false
  front_out a e = ground arith

  back_out : (a : ℕ) → in_range s size a ≡ true → in_block back a ≡ false
  back_out a e = ground arith

  ends : block_end old ≡ old.start + old.size
  ends = end_exact v valid i inside

  next : i + 1 ≡ suc i
  next = omega arith

  not_at : old.start ≢ s → (s == old.start) ≡ false
  not_at ne = ne→ne s old.start (λ e. ne (sym e))

  module _ (left : old.start < s) (right : s + size < old.start + old.size) where
    abbrev cut : Vmm
    cut = replace v valid i front

    cut-IsValid : IsValid cut
    cut-IsValid = replace-IsValid v valid i front inside (front-Fits left)

    cut-back-Fits : Fits cut (suc i) (suc i) back
    cut-back-Fits = record {
      full = omega arith;
      bounded = omega (arith, valid.bounded i inside);
      after =
          λ k e. rw (suc-injective k e, entry-replace_self v valid i front inside) (omega arith);
      before = λ h.
          rw (entry-replace_ne v valid i front (suc i) (omega arith))
            (omega (arith, valid.apart i h));
    }
      where
        suc-injective : (k : ℕ) → suc k ≡ suc i → k ≡ i
        suc-injective k e = omega arith

    split_lem :
        v.using_blocks < v.total_blocks
        → (a : ℕ) → holds (insert_block cut (suc i) back) a ≡ (holds v a && not (in_range s size a))
    split_lem room a =
        split_holds (holds (insert_block cut (suc i) back) a) (holds cut a) (in_block old a)
          (holds v a) (in_block front a) (in_block back a) (in_range s size a) inserted
          (holds-replace v valid i front a inside) (ground arith)
          (covered_of_block v.blocks v.using_blocks i a inside)
          (λ e.
            covered_of_block cut.blocks v.using_blocks i a inside
              (rw (entry-replace_self v valid i front inside) e))
          (λ e. inserted ∙ ap₂ ◌||◌ (replaced_none front a (front_out a) e) (back_out a e))
      where
        inserted : holds (insert_block cut (suc i) back) a ≡ (holds cut a || in_block back a)
        inserted = holds-inserted cut cut-IsValid (suc i) back a inside room

    cut_middle :
        v.using_blocks < v.total_blocks
        → cut_block v i old s (s + size) ≡ (success, insert_block cut (suc i) back)
    unfolding cut_block
    cut_middle room = rw (
      ends,
      not_at (omega arith),
      lt→ltb old.start s left,
      lt→ltb (s + size) (old.start + old.size) right,
      lt→leb v.using_blocks v.total_blocks room,
      sub64_exact s old.start from (omega (arith, valid.bounded i inside)),
      sub64_exact (old.start + old.size) (s + size) upto (valid.bounded i inside),
      next,
    )

    cut_full :
        v.using_blocks ≡ v.total_blocks → cut_block v i old s (s + size) ≡ (out_of_resource, v)
    unfolding cut_block
    cut_full full = rw (
      ends,
      not_at (omega arith),
      lt→ltb old.start s left,
      lt→ltb (s + size) (old.start + old.size) right,
      le→leb v.total_blocks v.using_blocks (omega arith),
    )

  cut_whole :
      s ≡ old.start
      → s + size ≡ old.start + old.size
      → cut_block v i old s (s + size) ≡ (success, removed v valid i)
  unfolding cut_block
  cut_whole left right =
      rw (ends, (==_iff s old.start).1 left, (==_iff (s + size) (old.start + old.size)).1 right)

  cut_front :
      s ≡ old.start
      → s + size < old.start + old.size
      → cut_block v i old s (s + size) ≡ (success, replace v valid i back)
  unfolding cut_block
  cut_front left right = rw (
    ends,
    (==_iff s old.start).1 left,
    lt→ne (s + size) (old.start + old.size) right,
    le→ltb old.start s (omega arith),
    sub64_exact (old.start + old.size) (s + size) upto (valid.bounded i inside),
  )

  cut_back :
      old.start < s
      → s + size ≡ old.start + old.size
      → cut_block v i old s (s + size) ≡ (success, replace v valid i front)
  unfolding cut_block
  cut_back left right = rw (
    ends,
    ne→ne s old.start (omega arith),
    (==_iff (s + size) (old.start + old.size)).1 right,
    lt→ltb old.start s left,
    le→ltb (s + size) (old.start + old.size) (omega arith),
    sub64_exact s old.start from (omega (arith, valid.bounded i inside)),
  )

  pub cut_block-Removed : Removed v s size (cut_block v i old s (s + size))
  cut_block-Removed = elim (dec_lt old.start s) [
    | no at_start ↦ elim (dec_lt (s + size) (old.start + old.size)) [
      | yes right ↦ rw (cut_front (omega arith) right) (
          inl (
            replace v valid i back,
            refl,
            replace-IsValid v valid i back inside (back-Fits right),
            replaced_holds back (λ a. ground arith) back_out,
            (i, (inside, from, upto)),
          ))
      | no at_end ↦ rw (cut_whole (omega arith) (omega arith)) (
          inl (
            removed v valid i,
            refl,
            removed-IsValid v valid i inside,
            whole (omega arith) (omega arith),
            (i, (inside, from, upto)),
          ))
    ]
    | yes left ↦ elim (dec_lt (s + size) (old.start + old.size)) [
      | no at_end ↦ rw (cut_back left (omega arith)) (
          inl (
            replace v valid i front,
            refl,
            replace-IsValid v valid i front inside (front-Fits left),
            replaced_holds front (λ a. ground arith) front_out,
            (i, (inside, from, upto)),
          ))
      | yes right ↦ elim (dec_lt v.using_blocks v.total_blocks) [
        | yes room ↦ rw (cut_middle left right room) (
            inl (
              insert_block (cut left right) (suc i) back,
              refl,
              inserted-IsValid (cut left right) (cut-IsValid left right) (suc i) back inside room
                  (cut-back-Fits left right),
              split_lem left right room,
              (i, (inside, from, upto)),
            ))
        | no full ↦
            let all_used : v.using_blocks ≡ v.total_blocks = omega (arith, valid.fits) in
            rw (cut_full left right all_used)
              (inr (inr (refl, all_used, (i, ((inside, from, upto), left)))))
      ]
    ]
  ]
