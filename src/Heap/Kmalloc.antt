-- ===== src/Heap/Kmalloc.antt =====
-- src/mem/allocator.c: `kmalloc` from a group that has free blocks, from the lock to its release.
use clay_figure_kernel.Base.{
  ℕ, ◌+◌, ◌-◌, ◌^◌, u32, sub64, ◌≡◌, Option, none, some, List, ◌∷◌, ◌++◌, ◌⊎◌, Status, success,
  not_found, Run, done, spin,
}
use clay_figure_kernel.Klist.Edit.{IsList}
use clay_figure_kernel.Heap.{Heap, group_at, block_of, block2cache, kmalloc_from}
use clay_figure_kernel.Heap.Suits.{Suits, NoneSuits}
use clay_figure_kernel.Heap.Locks.{locked}

-- What `kmalloc` leaves when it hands out the block of `node`, where the nodes `rest` stay in the list:
-- the block is counted as taken in its cache and in the group, it is cleared, and the lock is free.
pub record IsHandedOut (h : Heap) (i node : ℕ) (rest : List ℕ) (h' : Heap) : Type 0 where
  pub free : (group_at h' i).lock ≡ 1
  pub total : (group_at h' i).total_free ≡ u32 ((group_at h i).total_free + (2 ^ 32 - 1))
  pub count : h'.cnt (block2cache (block_of node)) ≡ sub64 (h.cnt (block2cache (block_of node))) 1
  pub cleared : h'.magic (block_of node) ≡ 0
  pub list : IsList h'.nodes (group_at h i).free_block_list rest

-- The end of `kmalloc` behind the lock: the first block that suits is handed out and is no longer in the
-- list; or no block suits, and the lock stays held, where every later `kmalloc` from the group waits.
abbrev pub Ends : Heap → ℕ → List ℕ → ℕ → ℕ → ℕ → Run (Status × Option ℕ × Heap) → Type 0
Ends h i xs a size boundary r =
    ((before : List ℕ) × (node : ℕ) × (after : List ℕ) × (h' : Heap) × (xs ≡ before ++ node ∷ after)
      × NoneSuits a size boundary before
      × Suits a size boundary (block_of node)
      × (r ≡ done (success, some (block_of node), h'))
      × IsHandedOut h i node (before ++ after) h')
    ⊎ ((r ≡ done (not_found, none, locked h i))
        × NoneSuits a size boundary xs
        × ((size' alignment' boundary' fuel' : ℕ)
            → kmalloc_from (locked h i) i size' alignment' boundary' fuel' ≡ spin))
