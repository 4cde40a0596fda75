-- ===== src/PageTable/Unmap.antt =====
-- src/arch/x86_64/mem/page.c: `page_unmap` and `set_page_flags` on a page that is mapped.
use clay_figure_kernel.Base.{
  ℕ, ◌+◌, ◌-◌, ◌%◌, ◌<◌, ◌≡◌, refl, ap, sym, ◌∙◌, arith, true, false, bit_or, add64, done,
  if◌then◌else◌,
}
use clay_figure_kernel.PageTable.{
  Words, is_present, table_of, page_of, page_offset, pml4t_index, pdpt_index, pdt_index,
  to_physical_address, pde_of, page_unmap, set_page_flags,
}
use clay_figure_kernel.PageTable.Entries.{
  slot, entry_at-slot, entry_of-slot, bit_or-flags, entry_parts, page_of-page_of,
}
use clay_figure_kernel.PageTable.Paths.{
  first_table, second_table, leaf, IsWalk, index_small, walk_lem, stored, stored-IsWalk,
  stored_leaf, same_page-IsWalk, same_page-leaf,
}

pde_of-slot :
    (w : Words) (p v : ℕ)
    → IsWalk w p v
    → is_present (leaf w p v) ≡ true
    → pde_of w p v ≡ done (slot (second_table w p v) (pdt_index v))
unfolding pde_of
pde_of-slot w p v walk on =
    let (lt₁, lt₂, lt₃) = index_small v in
    rw
      (
        entry_of-slot p (pml4t_index v) walk.root lt₁,
        entry_at-slot (first_table w p v) (pdpt_index v) walk.first_is lt₂,
        entry_at-slot (second_table w p v) (pdt_index v) walk.second_is lt₃,
        walk.first,
        walk.second,
        on,
      )
      refl

-- What a store of the last entry `e` does to the addresses of the page.
stored_translation :
    (w : Words) (p vaddr e v : ℕ)
    → (walk : IsWalk w p (page_of vaddr)) → page_of v ≡ page_of vaddr
    → to_physical_address (stored w p (page_of vaddr) e walk) p v
      ≡ (if is_present e then add64 (table_of e) (page_offset v) else 0)
stored_translation w p vaddr e v walk page =
    let w' = stored w p (page_of vaddr) e walk in
    let same : page_of (page_of vaddr) ≡ page_of v = page_of-page_of vaddr ∙ sym page in
    let value : leaf w' p v ≡ e =
      sym (same_page-leaf w' p (page_of vaddr) v same) ∙ stored_leaf w p (page_of vaddr) e walk in
    walk_lem w' p v
      (same_page-IsWalk w' p (page_of vaddr) v same (stored-IsWalk w p (page_of vaddr) e walk))
    ∙ rw value refl

-- `page_unmap` of an address whose page is mapped through three tables: it returns, and no address of
-- the page leads anywhere.
pub page_unmap_lem :
    (w : Words) (pml4t vaddr : ℕ)
    → IsWalk w pml4t (page_of vaddr)
    → is_present (leaf w pml4t (page_of vaddr)) ≡ true
    → (w' : Words) × (page_unmap w pml4t vaddr ≡ done w')
      × ((v : ℕ) → page_of v ≡ page_of vaddr → to_physical_address w' pml4t v ≡ 0)
unfolding page_unmap
page_unmap_lem w p vaddr walk on =
    let old = leaf w p (page_of vaddr) in
    let off : is_present (old - old % 2) ≡ false = ground arith in
    (
      stored w p (page_of vaddr) (old - old % 2) walk,
      rw (pde_of-slot w p (page_of vaddr) walk on) refl,
      λ v page. stored_translation w p vaddr (old - old % 2) v walk page ∙ rw off refl,
    )

-- `set_page_flags` with flags of 12 bits that hold `PG_P`, of an address whose page is mapped through
-- three tables: it returns, every address of the page leads where it led, and the flags are stored.
pub set_page_flags_lem :
    (w : Words) (pml4t vaddr flags : ℕ)
    → flags < 4096
    → flags % 2 ≡ 1
    → IsWalk w pml4t (page_of vaddr)
    → is_present (leaf w pml4t (page_of vaddr)) ≡ true
    → (w' : Words) × (set_page_flags w pml4t vaddr flags ≡ done w')
      × ((v : ℕ)
          → page_of v ≡ page_of vaddr
          → to_physical_address w' pml4t v ≡ to_physical_address w pml4t v)
      × (leaf w' pml4t (page_of vaddr) % 4096 ≡ flags)
unfolding set_page_flags
set_page_flags_lem w p vaddr flags small odd walk on =
    let old = leaf w p (page_of vaddr) in
    let e = bit_or (table_of old) flags in
    let value : e ≡ table_of old + flags = bit_or-flags (table_of old) flags (omega arith) small in
    let (is_on, table) = entry_parts (table_of old) flags (omega arith) small odd in
    let w' = stored w p (page_of vaddr) e walk in
    (
      w',
      rw (pde_of-slot w p (page_of vaddr) walk on) refl,
      (λ v page.
          let same : page_of (page_of vaddr) ≡ page_of v = page_of-page_of vaddr ∙ sym page in
          let before : to_physical_address w p v ≡ add64 (table_of old) (page_offset v) =
            walk_lem w p v (same_page-IsWalk w p (page_of vaddr) v same walk)
            ∙ rw (← same_page-leaf w p (page_of vaddr) v same, on) refl in
          stored_translation w p vaddr e v walk page ∙ rw (value, is_on, table) (sym before)),
      ap (λ (n : ℕ). n % 4096) (stored_leaf w p (page_of vaddr) e walk ∙ value) ∙ omega arith,
    )
