-- ===== src/PageTable/Blocks.antt =====
-- src/arch/x86_64/mem/page.c and src/mem/allocator.c: the tables that `page_map` gets from the kernel's
-- heap. Beside the heap stands which addresses are tables in use; the code keeps no such record.
use clay_figure_kernel.Base.{
  ℕ, zero, suc, ◌^◌, ◌<◌, ◌≡◌, inl, inr, refl, sym, ◌∙◌, arith, Bool, true, false, ◌==◌, ==_iff,
  Bool-cases, Option, none, some, Status, success, Run, done, ◌>>=◌,
}
use clay_figure_kernel.Base.Update.{update, update_self, update_ne}
use clay_figure_kernel.Heap.{Heap, kmalloc}
use clay_figure_kernel.PageTable.{pt_size, Words, phys_to_virt, virt_to_phys, page_of, page_map}
use clay_figure_kernel.PageTable.Entries.{IsTable, virt_to_phys-to_virt}
use clay_figure_kernel.PageTable.Walks.{Tables}
use clay_figure_kernel.PageTable.Maps.{IsSound, MapsTo, page_map-MapsTo}

-- The heap and the tables in use.
abbrev pub Used : Type 0
Used = Heap × (ℕ → Bool)

-- The block becomes a table in use.
abbrev note_block : (ℕ → Bool) → Option ℕ → ℕ → Bool
note_block used b = elim b [ none ↦ used | some a ↦ update used (virt_to_phys a) true ]

-- `kmalloc` of the heap.
abbrev pub table_kmalloc : ℕ → ℕ → ℕ → ℕ → Used → Run (Status × Option ℕ × Used)
table_kmalloc fuel size alignment boundary (h, used) =
    kmalloc h size alignment boundary fuel >>= λ (status, b, h').
    done (status, b, (h', note_block used b))

-- The next `n` calls of `kmalloc` for a table give blocks at addresses of tables, none of them in use.
unfoldable pub HasTables : ℕ → ℕ → Heap → (ℕ → Bool) → Type 0
HasTables fuel zero h used = Unit
HasTables fuel (suc n) h used =
    (t : ℕ) × (h' : Heap) × (kmalloc h pt_size 0 pt_size fuel
      ≡ done (success, some (phys_to_virt t), h'))
    × IsTable t
    × (used t ≡ false)
    × HasTables fuel n h' (update used t true)

pub fewer_blocks :
    (fuel n : ℕ) (h : Heap) (used : ℕ → Bool)
    → HasTables fuel (suc n) h used
    → HasTables fuel n h used
unfolding HasTables
fewer_blocks fuel zero h used has = tt
fewer_blocks fuel (suc n) h used (t, h', returned, is, new, rest) =
    (t, h', returned, is, new, fewer_blocks fuel n h' (update used t true) rest)

update_kept : (used : ℕ → Bool) (t x : ℕ) → used x ≡ true → update used t true x ≡ true
update_kept used t x e = elim (Bool-cases (t == x)) [
  | inl same ↦ rw (sym ((==_iff t x).0 same)) (update_self used t true)
  | inr other ↦ update_ne used t true x (λ same. ground (arith)) ∙ e
]

pub next_block :
    (fuel n : ℕ) (h : Heap) (used : ℕ → Bool)
    → HasTables fuel (suc n) h used
    → (t : ℕ) × (heap' : Used) × (table_kmalloc fuel pt_size 0 pt_size (h, used)
        ≡ done (success, some (phys_to_virt t), heap'))
      × IsTable t
      × ¬ (used t ≡ true)
      × (heap'.1 t ≡ true)
      × ((x : ℕ) → used x ≡ true → heap'.1 x ≡ true)
      × HasTables fuel n heap'.0 heap'.1
unfolding HasTables
next_block fuel n h used (t, h', returned, is, new, rest) = (
  t,
  (h', update used t true),
  rw (returned, virt_to_phys-to_virt t is) refl,
  is,
  (λ on. ground (arith)),
  update_self used t true,
  update_kept used t,
  rest,
)

abbrev pub heap_tables : (fuel : ℕ) → Tables (table_kmalloc fuel)
heap_tables fuel = record {
  Owned = λ heap t. heap.1 t ≡ true;
  Ready = λ n heap. HasTables fuel n heap.0 heap.1;
  gives = λ n heap ready. next_block fuel n heap.0 heap.1 ready;
  fewer = λ n heap ready. fewer_blocks fuel n heap.0 heap.1 ready;
}

-- `page_map` with `kmalloc` of the heap, for a 64-bit physical address, where what is present of the walk
-- are tables in use, each another, and the next two calls of `kmalloc` for a table give aligned blocks
-- in the first 2^47 bytes of the memory, not in use as tables. It returns, and every address of the page
-- of `vaddr` leads to the same place of the page of `paddr`.
pub page_map-Maps :
    (fuel : ℕ) (w : Words) (heap : Used) (p paddr vaddr : ℕ)
    → paddr < 2 ^ 64
    → IsSound (table_kmalloc fuel) (heap_tables fuel) w heap p (page_of vaddr)
    → HasTables fuel 2 heap.0 heap.1
    → (w' : Words) × (heap' : Used) × (page_map (table_kmalloc fuel) w heap p paddr vaddr
        ≡ done (w', heap'))
      × MapsTo w' p vaddr paddr
page_map-Maps fuel w heap p paddr vaddr small sound ready =
    page_map-MapsTo (table_kmalloc fuel) (heap_tables fuel) w heap p paddr vaddr small sound ready
