-- ===== src/Heap/Tests.antt =====
-- src/mem/allocator.c: a heap with one group, whose list has one block, the first of a cache of 2 MiB.
use clay_figure_kernel.Base.{
  ℕ, ◌^◌, inr, ◌≡◌, refl, arith, none, some, [], ◌∷◌, done, error, add64, sub64, mul64,
}
use clay_figure_kernel.Base.Update.{update}
use clay_figure_kernel.Klist.{put}
use clay_figure_kernel.Klist.Chain.{Apart, Distinct, Chain, last}
use clay_figure_kernel.Klist.Edit.{IsList}
use clay_figure_kernel.Klist.Samples.{ne}
use clay_figure_kernel.Page.Samples.{pool}
use clay_figure_kernel.Heap.{Heap, cache2block, block_index, size_of, kmalloc, kmalloc_find_block}
use clay_figure_kernel.Heap.Search.{AllMarked}
use clay_figure_kernel.Heap.Found.{Takes, kmalloc_find_block-Takes}

abbrev node : ℕ
node = 2097224

abbrev one_block : Heap
one_block = record {
  mem_groups = (record { block_size = 64; total_free = 1; free_block_list = 100; lock = 1 }) ∷ [];
  group = update (λ _. none) 2097152 (some 0);
  number_of_blocks = update (λ _. 0) 2097152 32767;
  cnt = update (λ _. 0) 2097152 1;
  magic = update (λ _. 0) 2097216 32767;
  nodes = record {
    prev = put (put (λ _. 0) node 100) 116 node;
    next = put (put (λ _. 0) 100 node) node 116;
  };
  pool = pool;
}

one_block-IsList : IsList one_block.nodes 100 (node ∷ [])
unfolding put Chain Apart Distinct last
one_block-IsList = record {
  links = (refl, refl, (refl, refl, tt));
  distinct = ((ne 100 node refl, (ne 100 116 refl, tt)), ((ne node 116 refl, tt), (tt, tt)));
  nonnull = (ne 0 100 refl, (ne 0 node refl, (ne 0 116 refl, tt)));
  first = refl;
  end = refl;
}

marked : AllMarked one_block 0 (node ∷ [])
unfolding AllMarked update block_index size_of add64 sub64
marked = (
  record {
    index = 0;
    group = refl;
    indexed = refl;
    magic = refl;
    behind = omega arith;
    member = refl;
    placed = refl;
    ends = omega arith;
    clear_of = inr (omega arith);
  },
  tt,
)

find_aligned_example :
    Takes one_block 100 (node ∷ []) 7 64 0 (kmalloc_find_block one_block 100 64 (2 ^ 7) 0 2)
find_aligned_example =
    kmalloc_find_block-Takes one_block 0 6 100 7 64 0 node [] 2 refl (omega arith) (omega arith)
      (omega arith) (omega arith) one_block-IsList marked (omega arith)

-- The block of number 3 of a cache, and its number.
third_block : cache2block one_block 2097152 3 ≡ done 2097408
unfolding cache2block size_of update add64 mul64
third_block = refl

-- A size above 256 KiB is refused.
too_large : kmalloc one_block 262145 0 0 1 ≡ done (error, none, one_block)
unfolding kmalloc
too_large = refl
