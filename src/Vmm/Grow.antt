-- ===== src/Vmm/Grow.antt =====
-- src/mem/vmm.c: how `vmm_add_range` ends, and its branch for a range that joins the block before it.
use native.Mathlib.Decide.{ℕ_discrete, dec_lt}
use clay_figure_kernel.Base.{
  ℕ, suc, ◌+◌, ◌-◌, ◌^◌, ◌≤◌, ◌<◌, ◌≡◌, ◌≢◌, ◌⊎◌, inl, refl, ap, sym, ◌∙◌, arith, Bool, true, false,
  ◌||◌, List, set, add64, add64_exact, Status, success, error, set-set_self, lt→ne, ne→ne, ==_iff,
}
use mathlib.Core.Bool.{false≢true}
use clay_figure_kernel.Vmm.{Block, Vmm, entry, move_forward, forward_from, merge_previous}
use clay_figure_kernel.Vmm.Cover.{in_block, in_range, holds, covered_of_block}
use clay_figure_kernel.Vmm.Moves.{forward-set, entry-set_ne}
use clay_figure_kernel.Vmm.Valid.{IsValid}
use clay_figure_kernel.Vmm.Edit.{
  Fits, replace, replace-IsValid, holds-replace, entry-replace_self, removed, removed-IsValid,
  using-removed, holds-removed, entry-removed_below, entry-removed_from,
}

-- The two ways in which the call ends.
abbrev pub Added : Vmm → ℕ → ℕ → Status × Vmm → Type 0
Added v s size r =
    ((v' : Vmm) × (r ≡ (success, v'))
      × IsValid v'
      × ((a : ℕ) → holds v' a ≡ (holds v a || in_range s size a)))
    ⊎ ((r ≡ (error, v)) × (v.using_blocks ≡ v.total_blocks))

pub grown_holds :
    (new old before block range : Bool)
    → (new || old) ≡ (before || block)
    → block ≡ (old || range)
    → (old ≡ true → before ≡ true)
    → (block ≡ true → new ≡ true)
    → new ≡ (before || range)
grown_holds new old before block range e f g h = ground arith

joined_holds :
    (new old middle before block range next : Bool)
    → before ≡ (middle || next)
    → (new || old) ≡ (middle || block)
    → block ≡ (old || (range || next))
    → (old ≡ true → middle ≡ true)
    → (block ≡ true → new ≡ true)
    → new ≡ (before || range)
joined_holds new old middle before block range next d e f g h = ground arith

in_range-add : (s n m a : ℕ) → in_range s (n + m) a ≡ (in_range s n a || in_range (s + n) m a)
in_range-add s n m a = ground arith

module _ (v : Vmm) (valid : IsValid v) (s size : ℕ) (pos : 0 < size) (small : s + size < 2 ^ 64)
    (fresh : (a : ℕ) → in_range s size a ≡ true → holds v a ≡ false) (i : ℕ)
    (inside : i ≤ v.using_blocks) (low : (j : ℕ) → j < i → (entry v.blocks j).start ≤ s)
    (high : i < v.using_blocks → s < (entry v.blocks i).start) where
  not_both :
      (a : ℕ) (k : ℕ)
      → k < v.using_blocks
      → in_range s size a ≡ true
      → in_block (entry v.blocks k) a ≡ true
      → ⊥
  not_both a k h e f =
      false≢true (sym (fresh a e) ∙ covered_of_block v.blocks v.using_blocks k a h f)

  pub prev_end : (k : ℕ) → suc k ≡ i → (entry v.blocks k).start + (entry v.blocks k).size ≤ s
  prev_end k e = elim (dec_lt s ((entry v.blocks k).start + (entry v.blocks k).size)) [
    | no fine ↦ omega arith
    | yes bad ↦
        absurd (not_both s k (omega arith) (ground arith) (ground (arith, low k (omega arith))))
  ]

  pub next_start : i < v.using_blocks → s + size ≤ (entry v.blocks i).start
  next_start h = elim (dec_lt (entry v.blocks i).start (s + size)) [
    | no fine ↦ omega arith
    | yes bad ↦ absurd (
        not_both (entry v.blocks i).start i h (ground (arith, high h))
          (ground (arith, valid.full i h)))
  ]

  -- Block `i - 1` grows at its end, by the range and perhaps by more.
  abbrev grown : ℕ → ℕ → Block
  grown k more = record {
    start = (entry v.blocks k).start;
    size = (entry v.blocks k).size + size + more;
  }

  module _ (k : ℕ) (below : suc k ≡ i)
      (touch : (entry v.blocks k).start + (entry v.blocks k).size ≡ s) where
    grown_after :
        (j : ℕ)
        → suc j ≡ k
        → (entry v.blocks j).start + (entry v.blocks j).size < (entry v.blocks k).start
    grown_after j e = rw (← e) (valid.apart j (omega arith))

    grow_Fits :
        (i < v.using_blocks → s + size ≢ (entry v.blocks i).start) → Fits v k (suc k) (grown k 0)
    grow_Fits apart = record {
      full = omega arith;
      bounded = omega arith;
      after = grown_after;
      before = rw below (λ h. omega (arith, apart h, next_start h));
    }

    grow_holds :
        (a : ℕ) → holds (replace v valid k (grown k 0)) a ≡ (holds v a || in_range s size a)
    grow_holds a =
        grown_holds (holds (replace v valid k (grown k 0)) a) (in_block (entry v.blocks k) a)
          (holds v a) (in_block (grown k 0) a) (in_range s size a)
          (holds-replace v valid k (grown k 0) a (omega arith)) (ground arith)
          (covered_of_block v.blocks v.using_blocks k a (omega arith))
          (λ e.
            covered_of_block (replace v valid k (grown k 0)).blocks v.using_blocks k a (omega arith)
              (rw (entry-replace_self v valid k (grown k 0) (omega arith)) e))

    -- Block `i` follows at once: it is taken out, and block `i - 1` takes up its bytes too.
    module _ (more : i < v.using_blocks) (meet : s + size ≡ (entry v.blocks i).start) where
      abbrev rest : Vmm
      rest = removed v valid i

      rest-IsValid : IsValid rest
      rest-IsValid = removed-IsValid v valid i more

      rest_entry : entry rest.blocks k ≡ entry v.blocks k
      rest_entry = entry-removed_below v valid i k (omega arith)

      abbrev joined : Vmm
      joined = replace rest rest-IsValid k (grown k (entry v.blocks i).size)

      next_used : suc k < rest.using_blocks → suc i < v.using_blocks
      next_used h = omega (arith, using-removed v valid i)

      join_Fits : Fits rest k (suc k) (grown k (entry v.blocks i).size)
      join_Fits = record {
        full = omega arith;
        bounded = omega (arith, valid.bounded i more);
        after = λ j e. rw (entry-removed_below v valid i j (omega arith)) (grown_after j e);
        before = λ h.
            rw (below, entry-removed_from v valid i i (omega arith) (next_used h))
              (omega (arith, valid.apart i (next_used h)));
      }

      k_used : k < rest.using_blocks
      k_used = omega (arith, using-removed v valid i)

      joined-IsValid : IsValid joined
      joined-IsValid =
          replace-IsValid rest rest-IsValid k (grown k (entry v.blocks i).size)
            (omega (arith, using-removed v valid i)) join_Fits

      joined_covers : (a : ℕ) → holds joined a ≡ (holds v a || in_range s size a)
      joined_covers a =
          joined_holds (holds joined a) (in_block (entry v.blocks k) a) (holds rest a) (holds v a)
            (in_block (grown k (entry v.blocks i).size) a) (in_range s size a)
            (in_block (entry v.blocks i) a) (holds-removed v valid i a more)
            (ap (λ (c : Block). holds joined a || in_block c a) (sym rest_entry)
              ∙ holds-replace rest rest-IsValid k (grown k (entry v.blocks i).size) a k_used)
            (ground arith)
            (λ e. covered_of_block rest.blocks rest.using_blocks k a k_used (rw rest_entry e))
            (λ e. covered_of_block joined.blocks rest.using_blocks k a k_used (
              rw (entry-replace_self rest rest-IsValid k (grown k (entry v.blocks i).size) k_used)
                e))

      -- The code takes block `i` out after it has made block `i - 1` grow, twice.
      joined_lem :
          move_forward
            (record v {
              blocks = set (set v.blocks k (grown k 0)) k (grown k (entry v.blocks i).size);
              using_blocks = v.using_blocks - 1;
            })
            i
          ≡ joined
      unfolding move_forward
      joined_lem =
          ap (λ (bs : List Block). record v { blocks = bs; using_blocks = v.using_blocks - 1 })
            (ap (λ (bs : List Block). forward_from bs i (v.using_blocks - 1 - i))
                (set-set_self v.blocks k (grown k 0) (grown k (entry v.blocks i).size))
              ∙ forward-set v.blocks k i (v.using_blocks - 1 - i) (grown k (entry v.blocks i).size)
                  (omega arith))

    k_inside : k < v.using_blocks
    k_inside = omega arith

    k_index : i - 1 ≡ k
    k_index = omega arith

    one_size : add64 (entry v.blocks k).size size ≡ (entry v.blocks k).size + size + 0
    one_size = add64_exact (entry v.blocks k).size size (omega arith) ∙ omega arith

    merge_last :
        i ≡ v.using_blocks → merge_previous v i s size ≡ (success, replace v valid k (grown k 0))
    unfolding merge_previous
    merge_last e = rw (k_index, one_size, (==_iff i v.using_blocks).1 e)

    merge_one :
        i < v.using_blocks
        → s + size ≢ (entry v.blocks i).start
        → merge_previous v i s size ≡ (success, replace v valid k (grown k 0))
    unfolding merge_previous
    merge_one more gap = rw (
      k_index,
      one_size,
      lt→ne i v.using_blocks more,
      add64_exact s size small,
      entry-set_ne v.blocks k i (grown k 0) (omega arith),
      ne→ne (s + size) (entry v.blocks i).start gap,
    )

    merge_both :
        (more : i < v.using_blocks) (meet : s + size ≡ (entry v.blocks i).start)
        → merge_previous v i s size ≡ (success, joined more meet)
    unfolding merge_previous
    merge_both more meet =
        rw
          (
            k_index,
            one_size,
            lt→ne i v.using_blocks more,
            add64_exact s size small,
            entry-set_ne v.blocks k i (grown k 0) (omega arith),
            (==_iff (s + size) (entry v.blocks i).start).1 meet,
            two_size,
          )
          (ap (λ (w : Vmm). (success, w)) (joined_lem more meet))
      where
        two_size :
            add64 ((entry v.blocks k).size + size + 0) (entry v.blocks i).size
            ≡ (entry v.blocks k).size + size + (entry v.blocks i).size
        two_size =
            add64_exact ((entry v.blocks k).size + size + 0) (entry v.blocks i).size
              (omega (arith, valid.bounded i more))
            ∙ omega arith

    pub merge_previous-Added : Added v s size (merge_previous v i s size)
    merge_previous-Added = elim (ℕ_discrete i v.using_blocks) [
      | yes last ↦ rw (merge_last last) (
          inl (
            replace v valid k (grown k 0),
            refl,
            replace-IsValid v valid k (grown k 0) k_inside (grow_Fits (λ h. absurd (omega arith))),
            grow_holds,
          ))
      | no inner ↦ elim (ℕ_discrete (s + size) (entry v.blocks i).start) [
        | yes meet ↦
            let more : i < v.using_blocks = omega arith in
            rw (merge_both more meet)
              (inl (joined more meet, refl, joined-IsValid more meet, joined_covers more meet))
        | no gap ↦ rw (merge_one (omega arith) gap) (
            inl (
              replace v valid k (grown k 0),
              refl,
              replace-IsValid v valid k (grown k 0) k_inside (grow_Fits (λ _. gap)),
              grow_holds,
            ))
      ]
    ]
