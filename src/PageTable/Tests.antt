-- ===== src/PageTable/Tests.antt =====
-- src/arch/x86_64/mem/page.c: a root table at 0x1000 over an empty memory, with a heap that has two free
-- blocks of a table's size.
use clay_figure_kernel.Base.{ℕ, ◌%◌, ◌≡◌, refl, arith, Bool, true, false, done, add64}
use clay_figure_kernel.Base.Update.{update}
use clay_figure_kernel.Klist.Samples.{ne}
use clay_figure_kernel.PageTable.{
  Words, phys_to_virt, entry_of, entry_at, is_present, page_of, page_map, page_unmap,
  set_page_flags, to_physical_address,
}
use clay_figure_kernel.PageTable.Entries.{slot}
use clay_figure_kernel.Heap.Samples.{two_blocks, kmalloc_twice}
use clay_figure_kernel.PageTable.Blocks.{Used, table_kmalloc, HasTables, heap_tables, page_map-Maps}
use clay_figure_kernel.PageTable.Paths.{IsWalk, leaf}
use clay_figure_kernel.PageTable.Maps.{IsSound, MapsTo}
use clay_figure_kernel.PageTable.Unmap.{page_unmap_lem, set_page_flags_lem}

-- The root table is in use.
abbrev root_used : ℕ → Bool
root_used = update (λ _. false) 0x1000 true

abbrev start : Used
start = (two_blocks, root_used)

abbrev empty : Words
empty _ = 0

two_blocks-HasTables : HasTables 4 2 two_blocks root_used
unfolding HasTables phys_to_virt add64 update
two_blocks-HasTables =
    let (h1, first, h2, second) = kmalloc_twice in
    (0x201000, h1, first, omega arith, refl, (0x202000, h2, second, omega arith, refl, tt))

empty-IsSound : IsSound (table_kmalloc 4) (heap_tables 4) empty start 0x1000 (page_of 0x40200123)
unfolding update
empty-IsSound = record {
  root = omega arith;
  root_owned = refl;
  first = λ e. absurd (cc);
  second = λ e e'. absurd (cc);
}

page_map_example :
    (w' : Words) × (heap' : Used) × (page_map
        (table_kmalloc 4)
        empty
        start
        0x1000
        0xa00000
        0x40200123
      ≡ done (w', heap'))
    × MapsTo w' 0x1000 0x40200123 0xa00000
page_map_example =
    page_map-Maps 4 empty start 0x1000 0xa00000 0x40200123 (omega arith) empty-IsSound
      two_blocks-HasTables

-- Three tables with one page, mapped at 0x40200000.
abbrev mapped : Words
mapped =
    update (update (update (λ _. 0) (slot 0x1000 0) 0x2007) (slot 0x2000 1) 0x3007) (slot 0x3000 1)
      0xa00087

mapped-IsWalk : IsWalk mapped 0x1000 (page_of 0x40200123)
unfolding update
mapped-IsWalk = record {
  root = omega arith;
  first = refl;
  first_is = omega arith;
  first_new = ne 0x1000 0x2000 refl;
  second = refl;
  second_is = omega arith;
  second_new = (ne 0x1000 0x3000 refl, ne 0x2000 0x3000 refl);
}

mapped_on : is_present (leaf mapped 0x1000 (page_of 0x40200123)) ≡ true
unfolding update
mapped_on = refl

mapped_address : to_physical_address mapped 0x1000 0x40200123 ≡ 0xa00123
unfolding to_physical_address update entry_of entry_at phys_to_virt add64
mapped_address = refl

page_unmap_example :
    (w' : Words) × (page_unmap mapped 0x1000 0x40200123 ≡ done w')
    × ((v : ℕ) → page_of v ≡ page_of 0x40200123 → to_physical_address w' 0x1000 v ≡ 0)
page_unmap_example = page_unmap_lem mapped 0x1000 0x40200123 mapped-IsWalk mapped_on

set_page_flags_example :
    (w' : Words) × (set_page_flags mapped 0x1000 0x40200123 5 ≡ done w')
    × ((v : ℕ)
        → page_of v ≡ page_of 0x40200123
        → to_physical_address w' 0x1000 v ≡ to_physical_address mapped 0x1000 v)
    × (leaf w' 0x1000 (page_of 0x40200123) % 4096 ≡ 5)
set_page_flags_example =
    set_page_flags_lem mapped 0x1000 0x40200123 5 (omega arith) refl mapped-IsWalk mapped_on
