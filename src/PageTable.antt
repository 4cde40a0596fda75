-- ===== src/PageTable.antt =====
-- src/arch/x86_64/mem/page.c and src/arch/x86_64/include/mem/page.h: the page tables of three levels,
-- with pages of 2 MiB. `Words` is the physical memory that they stand in, by 64-bit words at their
-- virtual addresses, and each word is below 2^64. `& ~0xfff` clears the low bits by a subtraction, and
-- shifts are divisions. `kmalloc` is an argument, with its own state; Blocks gives the one of Heap.
pub mod Entries
pub mod Walks
pub mod Paths
pub mod Unmap
pub mod Maps
pub mod Blocks
mod Tests
use clay_figure_kernel.Base.{
  ℕ, zero, suc, ◌+◌, ◌-◌, ◌*◌, ◌/◌, ◌%◌, ◌^◌, Bool, true, false, not, ◌&&◌, Option, none, some, ltb,
  leb, ◌==◌, if◌then◌else◌, bit_or, add64, sub64, Status, is_error, Run, done, panic, ◌>>=◌, ◌>>◌,
  assert,
}
use clay_figure_kernel.Base.Update.{update}
use clay_figure_kernel.Page.{pg_size}

abbrev pub pt_size : ℕ
pt_size = 0x1000

abbrev pub kernel_vma_base : ℕ
kernel_vma_base = 0xffff800000000000

abbrev pub Words : Type 0
Words = ℕ → ℕ

pub phys_to_virt : ℕ → ℕ
phys_to_virt addr = add64 addr kernel_vma_base

pub virt_to_phys : ℕ → ℕ
virt_to_phys addr = sub64 addr kernel_vma_base

-- `PG_P`, `PG_US_U | PG_RW_W | PG_P`, and `PG_DEFAULT_FLAGS`.
abbrev pub pg_p : ℕ
pg_p = 1

abbrev pub table_flags : ℕ
table_flags = 7

abbrev pub pg_default_flags : ℕ
pg_default_flags = 0x87

-- `GET_FIELD` of the three indices and of the offset.
abbrev pub pml4t_index : ℕ → ℕ
pml4t_index vaddr = vaddr / 2 ^ 39 % 512

abbrev pub pdpt_index : ℕ → ℕ
pdpt_index vaddr = vaddr / 2 ^ 30 % 512

abbrev pub pdt_index : ℕ → ℕ
pdt_index vaddr = vaddr / 2 ^ 21 % 512

abbrev pub page_offset : ℕ → ℕ
page_offset vaddr = vaddr % 2 ^ 21

-- `entry & PG_P`, and `entry & ~0xfff`.
abbrev pub is_present : ℕ → Bool
is_present entry = entry % 2 == 1

abbrev pub table_of : ℕ → ℕ
table_of entry = entry - entry % 4096

-- `addr & ~(PG_SIZE - 1)`.
abbrev pub page_of : ℕ → ℕ
page_of addr = addr - addr % pg_size

-- The virtual address of entry `index` of the table at the physical address `table`.
pub entry_at : ℕ → ℕ → ℕ
unfolding phys_to_virt
entry_at table index = phys_to_virt (add64 table (8 * index))

-- `v_pml4t + index`.
pub entry_of : ℕ → ℕ → ℕ
entry_of v_table index = add64 v_table (8 * index)

pub to_physical_address : Words → ℕ → ℕ → ℕ
to_physical_address w pml4t vaddr =
    let pml4e = w (entry_of (phys_to_virt pml4t) (pml4t_index vaddr)) in
    let pdpte = w (entry_at (table_of pml4e) (pdpt_index vaddr)) in
    let pde = w (entry_at (table_of pdpte) (pdt_index vaddr)) in
    if not (is_present pml4e)
    then 0
    else if not (is_present pdpte)
    then 0
    else if not (is_present pde)
    then 0
    else add64 (table_of pde) (page_offset vaddr)

pub pml4t_entry : ℕ → ℕ → ℕ
pml4t_entry pml4t vaddr = add64 pml4t (8 * pml4t_index vaddr)

pub pdpt_entry : Words → ℕ → ℕ → ℕ
pdpt_entry w pml4t vaddr =
    add64 (table_of (w (phys_to_virt (pml4t_entry pml4t vaddr)))) (8 * pdpt_index vaddr)

pub pdt_entry : Words → ℕ → ℕ → ℕ
pdt_entry w pml4t vaddr =
    add64 (table_of (w (phys_to_virt (pdpt_entry w pml4t vaddr)))) (8 * pdt_index vaddr)

-- `memset(addr, 0, size)` on the words.
pub clear : Words → ℕ → ℕ → Words
clear w addr size x = if leb addr x && ltb x (addr + size) then 0 else w x

-- The walk down to the entry of a page, through entries that have to be present.
pub pde_of : Words → ℕ → ℕ → Run ℕ
pde_of w pml4t vaddr =
    let v_pml4e = entry_of (phys_to_virt pml4t) (pml4t_index vaddr) in
    let v_pdpte = entry_at (table_of (w v_pml4e)) (pdpt_index vaddr) in
    let v_pde = entry_at (table_of (w v_pdpte)) (pdt_index vaddr) in
    do
      assert (is_present (w v_pml4e))
      assert (is_present (w v_pdpte))
      assert (is_present (w v_pde))
      done v_pde

pub page_unmap : Words → ℕ → ℕ → Run Words
page_unmap w pml4t vaddr =
    pde_of w pml4t (page_of vaddr) >>= λ v_pde. done (update w v_pde (w v_pde - w v_pde % 2))

pub set_page_flags : Words → ℕ → ℕ → ℕ → Run Words
set_page_flags w pml4t vaddr flags = pde_of w pml4t (page_of vaddr) >>= λ v_pde.
    done (update w v_pde (bit_or (table_of (w v_pde)) flags))

-- `kmalloc(size, alignment, boundary, &addr)`.
module _ {H : Type 0} (kmalloc : ℕ → ℕ → ℕ → H → Run (Status × Option ℕ × H)) where
  -- The table that an entry leads to: a new one, cleared, where the entry is not present.
  pub ensure_table : Words → H → ℕ → Run (Words × H)
  ensure_table w heap v_entry =
      if is_present (w v_entry)
      then done (w, heap)
      else kmalloc pt_size 0 pt_size heap >>= (λ (status, addr, heap'). elim addr [
        | none ↦ panic
        | some v_table ↦ do
          assert (not (is_error status))
          let table = virt_to_phys v_table
          done (update (clear w v_table pt_size) v_entry (bit_or table table_flags), heap')
      ])

  pub page_map : Words → H → ℕ → ℕ → ℕ → Run (Words × H)
  page_map w heap pml4t paddr vaddr = do
    let paddr = page_of paddr
    let vaddr = page_of vaddr
    let v_pml4e = entry_of (phys_to_virt pml4t) (pml4t_index vaddr)
    (w1, heap1) ← ensure_table w heap v_pml4e
    let v_pdpte = entry_at (table_of (w1 v_pml4e)) (pdpt_index vaddr)
    (w2, heap2) ← ensure_table w1 heap1 v_pdpte
    let v_pde = entry_at (table_of (w2 v_pdpte)) (pdt_index vaddr)
    done (update w2 v_pde (bit_or paddr pg_default_flags), heap2)

  -- `free_pdt`, `free_pdpt` and `free_page_table` go through the entries from `i` on, `n` of them.
  -- `kfree` and `free_physical_page` are parameters here.
  module _ (free_physical_page : ℕ → ℕ → H → Run H) (kfree : ℕ → H → Run H) where
    pub free_entries : (ℕ → H → Run H) → Words → ℕ → ℕ → ℕ → H → Run H
    free_entries free w v_table i zero heap = done heap
    free_entries free w v_table i (suc n) heap =
        let entry = w (entry_of v_table i) in
        (if is_present entry then free (table_of entry) heap else done heap) >>= λ heap'.
        free_entries free w v_table (i + 1) n heap'

    pub free_pdt : Words → ℕ → H → Run H
    free_pdt w pdt heap =
        free_entries (λ paddr h. free_physical_page paddr 1 h) w (phys_to_virt pdt) 0 512 heap
        >>= λ heap'. kfree (phys_to_virt pdt) heap'

    pub free_pdpt : Words → ℕ → H → Run H
    free_pdpt w pdpt heap =
        free_entries (λ pdt h. free_pdt w pdt h) w (phys_to_virt pdpt) 0 512 heap >>= λ heap'.
        kfree (phys_to_virt pdpt) heap'

    pub free_page_table : Words → ℕ → H → Run H
    free_page_table w pml4t heap =
        free_entries (λ pdpt h. free_pdpt w pdpt h) w (phys_to_virt pml4t) 0 256 heap >>= λ heap'.
        kfree (phys_to_virt pml4t) heap'
