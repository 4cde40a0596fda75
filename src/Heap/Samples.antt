-- ===== src/Heap/Samples.antt =====
-- src/mem/allocator.c: a heap whose group of 4096 bytes has two free blocks, the first two of the cache at
-- the physical address 0x200000.
use clay_figure_kernel.Base.{ℕ, ◌≡◌, refl, none, some, [], ◌∷◌, success, done, add64, sub64}
use clay_figure_kernel.Base.Update.{update}
use clay_figure_kernel.Sync.{spinlock_lock, spinlock_unlock}
use clay_figure_kernel.Klist.{put, through, list_remove, list_empty}
use clay_figure_kernel.Page.Samples.{pool}
use clay_figure_kernel.Heap.{
  Heap, block_index, size_of, assert_linked, fits, search_loop, take_node, kmalloc_find_block,
  find_group, lock_group, unlock_group, wipe, refill, hand_out, kmalloc_from, kmalloc,
}

abbrev cache : ℕ
cache = 0xffff800000200000

abbrev pub block1 : ℕ
block1 = 0xffff800000201000

abbrev pub block2 : ℕ
block2 = 0xffff800000202000

abbrev node1 : ℕ
node1 = 0xffff800000201008

abbrev node2 : ℕ
node2 = 0xffff800000202008

abbrev pub two_blocks : Heap
two_blocks = record {
  mem_groups = (record { block_size = 4096; total_free = 2; free_block_list = 100; lock = 1 }) ∷ [];
  group = update (λ _. none) cache (some 0);
  number_of_blocks = update (λ _. 0) cache 511;
  cnt = update (λ _. 0) cache 2;
  magic = update (update (λ _. 0) block1 511) block2 512;
  nodes = record {
    prev = put (put (put (λ _. 0) node1 100) node2 node1) 116 node2;
    next = put (put (put (λ _. 0) 100 node1) node1 node2) node2 116;
  };
  pool = pool;
}

-- Two calls for a block of 4096 bytes inside one stretch of 4096 bytes give the two blocks.
pub kmalloc_twice :
    (h1 : Heap) × (kmalloc two_blocks 4096 0 4096 4 ≡ done (success, some block1, h1))
    × (h2 : Heap) × (kmalloc h1 4096 0 4096 4 ≡ done (success, some block2, h2))
unfolding kmalloc kmalloc_from lock_group unlock_group refill kmalloc_find_block search_loop
    take_node hand_out wipe fits assert_linked block_index size_of find_group spinlock_lock
    spinlock_unlock list_remove list_empty through put update add64 sub64
kmalloc_twice = (_, refl, _, refl)
