-- ===== src/PageTable/Maps.antt =====
-- src/arch/x86_64/mem/page.c: what `to_physical_address` finds after `page_map` and `page_unmap`.
use clay_figure_kernel.Base.{
  ℕ, ◌+◌, ◌^◌, ◌<◌, ◌≡◌, ◌≢◌, inl, inr, refl, ap, sym, ◌∙◌, arith, true, bit_or, Option, Status,
  Run, done, add64_exact,
}
use clay_figure_kernel.Base.Update.{update}
use clay_figure_kernel.PageTable.{
  pg_default_flags, Words, is_present, table_of, page_of, page_offset, pml4t_index, pdpt_index,
  pdt_index, to_physical_address, page_map,
}
use clay_figure_kernel.PageTable.Entries.{
  IsTable, slot, entry_at-slot, entry_of-slot, slot_apart, bit_or-flags, entry_parts,
  page_of-page_of,
}
use clay_figure_kernel.PageTable.Walks.{Tables, Ensured, ensure_table-Ensured}
use clay_figure_kernel.PageTable.Paths.{
  first_table, second_table, leaf, IsWalk, index_small, walk_lem, stored, stored-IsWalk,
  stored_leaf, same_page-IsWalk, same_page-leaf,
}

-- Every address of the page of `vaddr` leads to the same place of the page of `paddr`.
abbrev pub MapsTo : Words → ℕ → ℕ → ℕ → Type 0
MapsTo w pml4t vaddr paddr =
    (v : ℕ)
    → page_of v ≡ page_of vaddr
    → to_physical_address w pml4t v ≡ page_of paddr + page_offset v

stored-MapsTo :
    (w : Words) (p vaddr paddr : ℕ)
    → paddr < 2 ^ 64
    → (walk : IsWalk w p (page_of vaddr))
    → MapsTo
        (stored w p (page_of vaddr) (bit_or (page_of paddr) pg_default_flags) walk)
        p
        vaddr
        paddr
stored-MapsTo w p vaddr paddr small walk v page =
    let e = bit_or (page_of paddr) pg_default_flags in
    let w' = stored w p (page_of vaddr) e walk in
    let same : page_of (page_of vaddr) ≡ page_of v = page_of-page_of vaddr ∙ sym page in
    let walk' =
      same_page-IsWalk w' p (page_of vaddr) v same (stored-IsWalk w p (page_of vaddr) e walk) in
    let value : leaf w' p v ≡ page_of paddr + 0x87 =
      sym (same_page-leaf w' p (page_of vaddr) v same)
      ∙ stored_leaf w p (page_of vaddr) e walk
      ∙ bit_or-flags (page_of paddr) 0x87 (omega arith) (omega arith) in
    let (is_on, table) = entry_parts (page_of paddr) 0x87 (omega arith) (omega arith) refl in
    walk_lem w' p v walk'
    ∙ rw (value, is_on, table) (add64_exact (page_of paddr) (page_offset v) (omega arith))

module _ {H : Type 0} (kmalloc : ℕ → ℕ → ℕ → H → Run (Status × Option ℕ × H))
    (tables : Tables kmalloc) where
  open tables use {Owned, Ready}

  -- What is present of the walk to `v` are tables in use, each of them another.
  pub record IsSound (w : Words) (heap : H) (p v : ℕ) : Type 0 where
    pub root : IsTable p
    pub root_owned : Owned heap p
    pub first :
        is_present (w (slot p (pml4t_index v))) ≡ true
        → IsTable (first_table w p v) × Owned heap (first_table w p v) × (p ≢ first_table w p v)
    pub second :
        is_present (w (slot p (pml4t_index v))) ≡ true
        → is_present (w (slot (first_table w p v) (pdpt_index v))) ≡ true
        → IsTable (second_table w p v)
          × Owned heap (second_table w p v)
          × (p ≢ second_table w p v)
          × (first_table w p v ≢ second_table w p v)

  module _ (w : Words) (heap : H) (p v : ℕ) (sound : IsSound w heap p v) (w1 : Words) (heap1 : H)
      (one : Ensured kmalloc tables 1 w heap (slot p (pml4t_index v)) w1 heap1) where
    abbrev t1 : ℕ
    t1 = first_table w1 p v

    new_first : p ≢ t1
    new_first e = elim one.origin [
      | inl (on, same) ↦ (sound.first on).2 (e ∙ ap table_of same)
      | inr (_, new, _) ↦ new (rw e at sound.root_owned)
    ]

    -- The second entry after the first step: as it was, or empty.
    second_entry :
        is_present (w1 (slot t1 (pdpt_index v))) ≡ true
        → (is_present (w (slot p (pml4t_index v))) ≡ true)
          × (t1 ≡ first_table w p v)
          × (w1 (slot t1 (pdpt_index v)) ≡ w (slot (first_table w p v) (pdpt_index v)))
    second_entry on = elim one.origin [
      | inl (on₁, same) ↦
          let same₁ : t1 ≡ first_table w p v = ap table_of same in
          let (is₁, own₁, ne₁) = sound.first on₁ in
          (
            on₁,
            same₁,
            ap (λ (a : ℕ). w1 (slot a (pdpt_index v))) same₁
                ∙ one.others (first_table w p v) (pdpt_index v) is₁ own₁ (omega arith) (λ e.
                  slot_apart p (first_table w p v) (pml4t_index v) (pdpt_index v) sound.root is₁
                    (omega arith) (omega arith) ne₁ (sym e)),
          )
      | inr (_, _, zeros) ↦ absurd (let none = rw (zeros (pdpt_index v) (omega arith)) at on in cc)
    ]

    leads :
        is_present (w1 (slot t1 (pdpt_index v))) ≡ true
        → IsTable (second_table w1 p v) × Owned heap1 (second_table w1 p v)
    leads on =
        let (on₁, same₁, same₂) = second_entry on in
        let (is₂, own₂, _, _) = sound.second on₁ (rw same₂ at on) in
        let table : second_table w1 p v ≡ second_table w p v = ap table_of same₂ in
        (rw table is₂, rw table (one.kept _ own₂))

    module _ (w2 : Words) (heap2 : H)
        (two : Ensured kmalloc tables 0 w1 heap1 (slot t1 (pdpt_index v)) w2 heap2) where
      first_kept : w2 (slot p (pml4t_index v)) ≡ w1 (slot p (pml4t_index v))
      first_kept =
          two.others p (pml4t_index v) sound.root (one.kept p sound.root_owned) (omega arith) (
            slot_apart p t1 (pml4t_index v) (pdpt_index v) sound.root one.table (omega arith)
              (omega arith) new_first)

      same_t1 : first_table w2 p v ≡ t1
      same_t1 = ap table_of first_kept

      same_entry : w2 (slot (first_table w2 p v) (pdpt_index v)) ≡ w2 (slot t1 (pdpt_index v))
      same_entry = ap (λ (a : ℕ). w2 (slot a (pdpt_index v))) same_t1

      new_second : (p ≢ second_table w2 p v) × (t1 ≢ second_table w2 p v)
      new_second = elim two.origin [
        | inl (on, same) ↦
            let (on₁, same₁, same₂) = second_entry on in
            let (_, _, ne_p, ne_1) = sound.second on₁ (rw same₂ at on) in
            let table : second_table w2 p v ≡ second_table w p v =
              ap table_of same_entry ∙ ap table_of same ∙ ap table_of same₂ in
            ((λ e. ne_p (e ∙ table)), (λ e. ne_1 (sym same₁ ∙ e ∙ table)))
        | inr (_, new, _) ↦
            let table : second_table w2 p v ≡ table_of (w2 (slot t1 (pdpt_index v))) =
              ap table_of same_entry in
            (
              (λ e. new (rw (e ∙ table) at (one.kept p sound.root_owned))),
              (λ e. new (rw (e ∙ table) at one.owned)),
            )
      ]

      both-IsWalk : IsWalk w2 p v
      both-IsWalk = record {
        root = sound.root;
        first = ap is_present first_kept ∙ one.present;
        first_is = rw same_t1 one.table;
        first_new = λ e. new_first (e ∙ same_t1);
        second = ap is_present same_entry ∙ two.present;
        second_is = rw same_entry two.table;
        second_new = (new_second.0, (λ e. new_second.1 (sym same_t1 ∙ e)));
      }

  -- `page_map`, where the heap has room for two tables and what is there of the walk to the address are
  -- tables in use, each of them another: it returns, and every address of the page leads to the same
  -- place of the physical page.
  pub page_map-MapsTo :
      (w : Words) (heap : H) (pml4t paddr vaddr : ℕ)
      → paddr < 2 ^ 64
      → IsSound w heap pml4t (page_of vaddr)
      → Ready 2 heap
      → (w' : Words) × (heap' : H) × (page_map kmalloc w heap pml4t paddr vaddr ≡ done (w', heap'))
        × MapsTo w' pml4t vaddr paddr
  unfolding page_map
  page_map-MapsTo w heap p paddr vaddr small sound ready =
      let v = page_of vaddr in
      let (lt₁, lt₂, lt₃) = index_small v in
      let (w1, heap1, e₁, one) =
        ensure_table-Ensured kmalloc tables 1 w heap p (pml4t_index v) sound.root sound.root_owned
          lt₁ ready (λ on. let (is, own, _) = sound.first on in (is, own)) in
      let (w2, heap2, e₂, two) =
        ensure_table-Ensured kmalloc tables 0 w1 heap1 (first_table w1 p v) (pdpt_index v) one.table
          one.owned lt₂ one.ready (leads w heap p v sound w1 heap1 one) in
      let walk = both-IsWalk w heap p v sound w1 heap1 one w2 heap2 two in
      let entry = bit_or (page_of paddr) pg_default_flags in
      let at_slot : second_table w2 p v ≡ table_of (w2 (slot (first_table w1 p v) (pdpt_index v))) =
        ap table_of (same_entry w heap p v sound w1 heap1 one w2 heap2 two) in
      let is₃ : IsTable (table_of (w2 (slot (first_table w1 p v) (pdpt_index v)))) = two.table in
      (
        stored w2 p v entry walk,
        heap2,
        rw
            (
              entry_of-slot p (pml4t_index v) sound.root lt₁,
              e₁,
              entry_at-slot (first_table w1 p v) (pdpt_index v) one.table lt₂,
              e₂,
              entry_at-slot (table_of (w2 (slot (first_table w1 p v) (pdpt_index v)))) (pdt_index v)
                  is₃ lt₃,
            )
            (ap (λ (a : ℕ). done (update w2 (slot a (pdt_index v)) entry, heap2)) (sym at_slot)),
        stored-MapsTo w2 p vaddr paddr small walk,
      )
