-- ===== src/PageTable/Paths.antt =====
-- src/arch/x86_64/mem/page.c: the walk to an address, and a store of its last entry.
use clay_figure_kernel.Base.{
  ℕ, ◌<◌, ◌≡◌, ◌≢◌, inl, inr, refl, ap, sym, ◌∙◌, arith, true, add64, Bool-cases, if◌then◌else◌,
}
use clay_figure_kernel.Base.Update.{update, update_self, update_ne}
use clay_figure_kernel.PageTable.{
  Words, is_present, table_of, page_of, page_offset, pml4t_index, pdpt_index, pdt_index,
  to_physical_address,
}
use clay_figure_kernel.PageTable.Entries.{
  IsTable, slot, entry_at-slot, entry_of-slot, slot_apart, same_page,
}

-- The tables that the entries of a walk lead to.
abbrev pub first_table : Words → ℕ → ℕ → ℕ
first_table w p v = table_of (w (slot p (pml4t_index v)))

abbrev pub second_table : Words → ℕ → ℕ → ℕ
second_table w p v = table_of (w (slot (first_table w p v) (pdpt_index v)))

abbrev pub leaf : Words → ℕ → ℕ → ℕ
leaf w p v = w (slot (second_table w p v) (pdt_index v))

-- The walk to `v` is there, with three tables of their own.
pub record IsWalk (w : Words) (p v : ℕ) : Type 0 where
  pub root : IsTable p
  pub first : is_present (w (slot p (pml4t_index v))) ≡ true
  pub first_is : IsTable (first_table w p v)
  pub first_new : p ≢ first_table w p v
  pub second : is_present (w (slot (first_table w p v) (pdpt_index v))) ≡ true
  pub second_is : IsTable (second_table w p v)
  pub second_new : (p ≢ second_table w p v) × (first_table w p v ≢ second_table w p v)

pub index_small : (v : ℕ) → (pml4t_index v < 512) × (pdpt_index v < 512) × (pdt_index v < 512)
index_small v = (omega arith, omega arith, omega arith)

-- On such a walk the last entry decides.
pub walk_lem :
    (w : Words) (p v : ℕ)
    → IsWalk w p v
    → to_physical_address w p v
      ≡ (if is_present (leaf w p v) then add64 (table_of (leaf w p v)) (page_offset v) else 0)
unfolding to_physical_address
walk_lem w p v walk =
    let (lt₁, lt₂, lt₃) = index_small v in
    rw
      (
        entry_of-slot p (pml4t_index v) walk.root lt₁,
        entry_at-slot (first_table w p v) (pdpt_index v) walk.first_is lt₂,
        entry_at-slot (second_table w p v) (pdt_index v) walk.second_is lt₃,
        walk.first,
        walk.second,
      )
      (elim (Bool-cases (is_present (leaf w p v))) [ inl e ↦ rw e refl | inr e ↦ rw e refl ])

-- The walk stands when the last entry of another walk, of the same tables, is stored.
module _ (w : Words) (p v e : ℕ) (walk : IsWalk w p v) where
  abbrev pub stored : Words
  stored = update w (slot (second_table w p v) (pdt_index v)) e

  stored_other :
      (t i : ℕ) → IsTable t → i < 512 → t ≢ second_table w p v → stored (slot t i) ≡ w (slot t i)
  stored_other t i is lt ne = update_ne w _ e (slot t i) (λ same.
      slot_apart t (second_table w p v) i (pdt_index v) is walk.second_is lt (omega arith) ne
        (sym same))

  stored_first : stored (slot p (pml4t_index v)) ≡ w (slot p (pml4t_index v))
  stored_first = stored_other p (pml4t_index v) walk.root (omega arith) walk.second_new.0

  stored_second :
      stored (slot (first_table stored p v) (pdpt_index v))
      ≡ w (slot (first_table w p v) (pdpt_index v))
  stored_second =
      ap (λ (a : ℕ). stored (slot (table_of a) (pdpt_index v))) stored_first
      ∙ stored_other (first_table w p v) (pdpt_index v) walk.first_is (omega arith)
          walk.second_new.1

  same_first : first_table stored p v ≡ first_table w p v
  same_first = ap table_of stored_first

  same_second : second_table stored p v ≡ second_table w p v
  same_second = ap table_of stored_second

  pub stored-IsWalk : IsWalk stored p v
  stored-IsWalk = record {
    root = walk.root;
    first = ap is_present stored_first ∙ walk.first;
    first_is = rw same_first walk.first_is;
    first_new = rw same_first walk.first_new;
    second = ap is_present stored_second ∙ walk.second;
    second_is = rw same_second walk.second_is;
    second_new = (
      (λ e'. walk.second_new.0 (e' ∙ same_second)),
      (λ e'. walk.second_new.1 (sym same_first ∙ e' ∙ same_second)),
    );
  }

  pub stored_leaf : leaf stored p v ≡ e
  stored_leaf =
      ap (λ (a : ℕ). stored (slot a (pdt_index v))) same_second
      ∙ update_self w (slot (second_table w p v) (pdt_index v)) e

-- A walk is that of every address of the page.
pub same_page-IsWalk :
    (w : Words) (p v v' : ℕ) → page_of v ≡ page_of v' → IsWalk w p v → IsWalk w p v'
same_page-IsWalk w p v v' e walk =
    let (e₁, e₂, _) = same_page v v' e in
    record {
      root = walk.root;
      first = rw (← e₁) walk.first;
      first_is = rw (← e₁) walk.first_is;
      first_new = rw (← e₁) walk.first_new;
      second = rw (← e₁, ← e₂) walk.second;
      second_is = rw (← e₁, ← e₂) walk.second_is;
      second_new = rw (← e₁, ← e₂) walk.second_new;
    }

pub same_page-leaf : (w : Words) (p v v' : ℕ) → page_of v ≡ page_of v' → leaf w p v ≡ leaf w p v'
same_page-leaf w p v v' e = let (e₁, e₂, e₃) = same_page v v' e in rw (e₁, e₂, e₃) refl
