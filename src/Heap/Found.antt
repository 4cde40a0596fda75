-- ===== src/Heap/Found.antt =====
-- src/mem/allocator.c: `kmalloc_find_block` finds the first block that suits.
use clay_figure_kernel.Base.{
  ℕ, ◌^◌, ◌≤◌, ◌<◌, ◌≡◌, List, ◌∷◌, ◌++◌, ◌⊎◌, inl, inr, length, Option, none, some, Run, done,
}
use clay_figure_kernel.Klist.{Nodes}
use clay_figure_kernel.Klist.Edit.{IsList}
use clay_figure_kernel.Heap.{Heap, group_at, block_of, kmalloc_find_block}
use clay_figure_kernel.Heap.Search.{AllMarked, kmalloc_find_block-Finds}
use clay_figure_kernel.Heap.Suits.{Suits, NoneSuits, NoneFits-NoneSuits, FirstFit-Suits}

-- How the search ends on the heap `h`: the first block that suits is taken out of the list, which keeps
-- the other nodes in their order, or no block suits, and nothing has changed.
abbrev pub Takes : Heap → ℕ → List ℕ → ℕ → ℕ → ℕ → Run (Option ℕ × Heap) → Type 0
Takes h list xs a size boundary r =
    ((before : List ℕ) × (node : ℕ) × (after : List ℕ) × (nodes : Nodes) × (xs
        ≡ before ++ node ∷ after)
      × NoneSuits a size boundary before
      × Suits a size boundary (block_of node)
      × (r ≡ done (some (block_of node), record h { nodes = nodes }))
      × IsList nodes list (before ++ after))
    ⊎ ((r ≡ done (none, h)) × NoneSuits a size boundary xs)

-- `kmalloc_find_block` for a size above 0 up to the block size of the group and an alignment 2^a, on a
-- free list that is not empty and whose blocks, of 2^e bytes up to a page, carry their marks, given the
-- fuel, returns: it takes the first block that is at a multiple of 2^a and whose `size` bytes lie within
-- one stretch of `boundary` bytes, if there is a boundary; or there is no such block, and it changes
-- nothing.
pub kmalloc_find_block-Takes :
    (h : Heap) (i e list a size boundary x : ℕ) (xs : List ℕ) (fuel : ℕ)
    → (group_at h i).block_size ≡ 2 ^ e
    → e ≤ 21
    → a < 64
    → 0 < size
    → size ≤ (group_at h i).block_size
    → IsList h.nodes list (x ∷ xs)
    → AllMarked h i (x ∷ xs)
    → length (x ∷ xs) < fuel
    → Takes h list (x ∷ xs) a size boundary (kmalloc_find_block h list size (2 ^ a) boundary fuel)
kmalloc_find_block-Takes h i e list a size boundary x xs fuel power page small some_bytes room l
      marks enough =
    elim (kmalloc_find_block-Finds h i list size (2 ^ a) boundary x xs fuel l marks enough) [
      | inl (before, node, after, nodes, first, r, rest) ↦
          let (others, suits) =
            FirstFit-Suits h i e a size boundary power page small some_bytes room (x ∷ xs) before
              node after marks first in
          inl (before, node, after, nodes, first.0, others, suits, r, rest)
      | inr (r, none_fits) ↦ inr (
        r,
        NoneFits-NoneSuits h i e a size boundary power page small some_bytes room (x ∷ xs) marks
            none_fits,
      )
    ]
