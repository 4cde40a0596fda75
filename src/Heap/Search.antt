-- ===== src/Heap/Search.antt =====
-- src/mem/allocator.c: which block `kmalloc_find_block` takes from the free list of a group.
use clay_figure_kernel.Base.{
  ℕ, zero, suc, ◌+◌, ◌≤◌, ◌<◌, ◌≡◌, ◌≢◌, refl, ap, sym, arith, Bool, true, false, ◌&&◌, Option,
  none, some, List, [], ◌∷◌, ◌++◌, ◌⊎◌, leb, ◌==◌, if◌then◌else◌, length, ==_iff, ne→ne, Bool-cases,
  inl, inr, add64, ◌*◌, ◌^◌, Run, done, assert,
}
use clay_figure_kernel.Klist.{Nodes, null, list_head, list_tail, through}
use clay_figure_kernel.Klist.Chain.{Apart, Chain, Distinct}
use clay_figure_kernel.Klist.Edit.{IsList, through_nonnull}
use clay_figure_kernel.Klist.Ops.{list_remove-IsList}
use clay_figure_kernel.Klist.Walk.{Walk, of_list}
use clay_figure_kernel.Heap.{
  Heap, block_of, block2cache, block_index, group_at, assert_linked, fits, search_loop, take_node,
  kmalloc_find_block,
}

-- The block of a node belongs to a cache of the group `i`, in front of which the cache itself lies, as the
-- one of number `index`, has its mark in `magic`, ends below 2^64, and holds
-- neither end of the group's list.
pub record IsMarked (h : Heap) (i : ℕ) (node : ℕ) : Type 0 where
  pub index : ℕ
  pub group : h.group (block2cache (block_of node)) ≡ some i
  pub indexed : block_index h (block2cache (block_of node)) (block_of node) ≡ done index
  pub magic :
      h.magic (block_of node) ≡ add64 index (h.number_of_blocks (block2cache (block_of node)))
  pub behind : block2cache (block_of node) < block_of node
  pub member : node ≡ block_of node + 8
  pub placed : block_of node ≡ block2cache (block_of node) + (group_at h i).block_size * (index + 1)
  pub ends : block_of node + (group_at h i).block_size < 2 ^ 64
  pub clear_of :
      (block_of node + (group_at h i).block_size ≤ (group_at h i).free_block_list)
      ⊎ ((group_at h i).free_block_list + 16 < block_of node)

unfoldable pub AllMarked : Heap → ℕ → List ℕ → Type 0
AllMarked h i [] = Unit
AllMarked h i (x ∷ xs) = IsMarked h i x × AllMarked h i xs

-- The reference: the first node whose block passes the test.
pub first_fit : (ℕ → Bool) → List ℕ → Option ℕ
first_fit test [] = none
first_fit test (x ∷ xs) = if test (block_of x) then some x else first_fit test xs

-- No block of the nodes passes the test.
unfoldable pub NoneFits : (ℕ → Bool) → List ℕ → Type 0
NoneFits test [] = Unit
NoneFits test (x ∷ xs) = (test (block_of x) ≡ false) × NoneFits test xs

-- A node that is first to pass the test.
abbrev pub FirstFit : (ℕ → Bool) → List ℕ → List ℕ → ℕ → List ℕ → Type 0
FirstFit test xs before node after =
    (xs ≡ before ++ node ∷ after) × (test (block_of node) ≡ true) × NoneFits test before

pub first_fit-some :
    (test : ℕ → Bool) (xs : List ℕ) (node : ℕ)
    → first_fit test xs ≡ some node
    → (before : List ℕ) × (after : List ℕ) × FirstFit test xs before node after
unfolding first_fit NoneFits
first_fit-some test [] node e = absurd (cc)
first_fit-some test (x ∷ xs) node e = elim (Bool-cases (test (block_of x))) [
  | inl fit ↦
      let same : x ≡ node = (let h = rw fit at e in cc) in
      ([], xs, (ap (λ (n : ℕ). n ∷ xs) same, rw same at fit, tt))
  | inr not_fit ↦
      let (before, after, (cut, fit, others)) = first_fit-some test xs node (rw not_fit at e) in
      (x ∷ before, after, (ap (λ (l : List ℕ). x ∷ l) cut, fit, (not_fit, others)))
]

pub first_fit-none : (test : ℕ → Bool) (xs : List ℕ) → first_fit test xs ≡ none → NoneFits test xs
unfolding first_fit NoneFits
first_fit-none test [] e = tt
first_fit-none test (x ∷ xs) e = elim (Bool-cases (test (block_of x))) [
  | inl fit ↦ absurd (let h = rw fit at e in cc)
  | inr not_fit ↦ (not_fit, first_fit-none test xs (rw not_fit at e))
]

-- `node->next->prev` of a node of a chain.
pub assert_linked-Chain :
    (nodes : Nodes) (x y : ℕ)
    → null ≢ x
    → null ≢ y
    → nodes.next x ≡ y
    → nodes.prev y ≡ x
    → assert_linked nodes x ≡ done tt
unfolding assert_linked
assert_linked-Chain nodes x y nx ny next prev =
    rw
      (
        through_nonnull x (through (nodes.next x) (assert (nodes.prev (nodes.next x) == x))) nx,
        next,
      )
      (rw (through_nonnull y (assert (nodes.prev y == x)) ny, prev, (==_iff x x).1 refl) refl)

-- The same for the first node of a walk on.
linked_next :
    (nodes : Nodes) (t x : ℕ) (xs : List ℕ)
    → null ≢ x
    → Chain nodes x (xs ++ t ∷ [])
    → Apart null (xs ++ t ∷ [])
    → assert_linked nodes x ≡ done tt
unfolding Chain Apart
linked_next nodes t x [] nx (next, prev, _) (nt, _) = assert_linked-Chain nodes x t nx nt next prev
linked_next nodes t x (y ∷ ys) nx (next, prev, _) (ny, _) =
    assert_linked-Chain nodes x y nx ny next prev

search_loop_lem :
    (h : Heap) (i list size alignment boundary a : ℕ) (xs : List ℕ) (fuel : ℕ)
    → Walk h.nodes (list_tail list) a xs
    → AllMarked h i xs
    → suc (length xs) ≤ fuel
    → search_loop h list size alignment boundary fuel (h.nodes.next a)
      ≡ done (first_fit (fits size alignment boundary) xs)
unfolding search_loop Chain Apart first_fit AllMarked
search_loop_lem h i list size alignment boundary a [] zero w _ enough = absurd (omega arith)
search_loop_lem h i list size alignment boundary a (x ∷ xs) zero w _ enough = absurd (omega arith)
search_loop_lem h i list size alignment boundary a [] (suc fuel) (links, _, _) _ enough =
    rw (links.0, (==_iff (list + 16) (list + 16)).1 refl) refl
search_loop_lem h i list size alignment boundary a (x ∷ xs) (suc fuel)
      ((next, _, links), (null_x, null_xs), (t_x, t_xs)) (m, ms) enough =
    let rest =
      search_loop_lem h i list size alignment boundary x xs fuel (links, null_xs, t_xs) ms
        (omega arith) in
    rw
      (
        next,
        ne→ne x (list + 16) (λ e. t_x (sym e)),
        m.indexed,
        m.magic,
        (==_iff (add64 m.index (h.number_of_blocks (block2cache (block_of x)))) _).1 refl,
        linked_next h.nodes (list_tail list) x xs null_x links null_xs,
      )
      (elim (Bool-cases (fits size alignment boundary (block_of x))) [
        | inl fit ↦ rw fit refl
        | inr not_fit ↦ rw not_fit rest
      ])

first_linked :
    (nodes : Nodes) (list x : ℕ) (xs : List ℕ)
    → IsList nodes list (x ∷ xs)
    → (nodes.next (list_head list) ≡ x) × (assert_linked nodes x ≡ done tt)
unfolding Chain Apart Distinct
first_linked nodes list x xs l =
    (l.links.0, linked_next nodes (list_tail list) x xs l.nonnull.1.0 l.links.2 l.nonnull.1.1)

-- The test that the search makes: none at all where alignment and boundary ask for nothing.
unfoldable pub asks : ℕ → ℕ → ℕ → ℕ → Bool
asks size alignment boundary =
    if leb alignment size && boundary == 0 then (λ _. true) else fits size alignment boundary

pub asks_any :
    (size alignment boundary : ℕ)
    → (leb alignment size && boundary == 0) ≡ true
    → asks size alignment boundary ≡ (λ _. true)
unfolding asks
asks_any size alignment boundary any = rw any refl

pub asks_strict :
    (size alignment boundary : ℕ)
    → (leb alignment size && boundary == 0) ≡ false
    → asks size alignment boundary ≡ fits size alignment boundary
unfolding asks
asks_strict size alignment boundary strict = rw strict refl

-- How the search ends on the heap `h`: the first block that fits is taken out of the list, which keeps
-- the other nodes in their order, or no block fits, and nothing has changed.
abbrev pub Finds : Heap → ℕ → List ℕ → (ℕ → Bool) → Run (Option ℕ × Heap) → Type 0
Finds h list xs test r =
    ((before : List ℕ) × (node : ℕ) × (after : List ℕ) × (nodes : Nodes) × FirstFit test xs before
        node after
      × (r ≡ done (some (block_of node), record h { nodes = nodes }))
      × IsList nodes list (before ++ after))
    ⊎ ((r ≡ done (none, h)) × NoneFits test xs)

taken_out :
    (h : Heap) (list : ℕ) (xs : List ℕ) (test : ℕ → Bool) (before : List ℕ) (node : ℕ)
    (after : List ℕ)
    → IsList h.nodes list xs
    → FirstFit test xs before node after
    → Finds h list xs test (take_node h node)
unfolding take_node
taken_out h list xs test before node after l (cut, fit, others) =
    let (nodes, e, linked, _, _, _) =
      list_remove-IsList h.nodes list node before after (rw cut at l) in
    inl (before, node, after, nodes, (cut, fit, others), rw e refl, linked)

-- The first node is the first that passes a test that every block passes.
first_taken :
    (h : Heap) (list x : ℕ) (xs : List ℕ)
    → IsList h.nodes list (x ∷ xs)
    → Finds h list (x ∷ xs) (λ _. true) (take_node h x)
unfolding NoneFits
first_taken h list x xs l = taken_out h list (x ∷ xs) (λ _. true) [] x xs l (refl, refl, tt)

-- The search by the tests that it makes.
pub kmalloc_find_block-Finds :
    (h : Heap) (i list size alignment boundary x : ℕ) (xs : List ℕ) (fuel : ℕ)
    → IsList h.nodes list (x ∷ xs)
    → AllMarked h i (x ∷ xs)
    → length (x ∷ xs) < fuel
    → Finds h list
        (x ∷ xs)
        (asks size alignment boundary)
        (kmalloc_find_block h list size alignment boundary fuel)
unfolding kmalloc_find_block
kmalloc_find_block-Finds h i list size alignment boundary x xs fuel l marks enough =
    let (next, linked) = first_linked h.nodes list x xs l in
    let found =
      search_loop_lem h i list size alignment boundary list (x ∷ xs) fuel
        (of_list h.nodes list (x ∷ xs) l) marks (omega arith) in
    let searched = rw next at found in
    elim (Bool-cases (leb alignment size && boundary == 0)) [
      | inl any ↦
          rw (next, linked, any, asks_any size alignment boundary any) (first_taken h list x xs l)
      | inr strict ↦
          rw (next, linked, strict, asks_strict size alignment boundary strict, searched)
            (by_result (first_fit (fits size alignment boundary) (x ∷ xs)) refl)
    ]
  where
    by_result :
        (r : Option ℕ)
        → first_fit (fits size alignment boundary) (x ∷ xs) ≡ r
        → Finds h list
            (x ∷ xs)
            (fits size alignment boundary)
            (elim r [ none ↦ done (none, h) | some n ↦ take_node h n ])
    by_result none e = inr (refl, first_fit-none (fits size alignment boundary) (x ∷ xs) e)
    by_result (some n) e =
        let (before, after, first) = first_fit-some (fits size alignment boundary) (x ∷ xs) n e in
        taken_out h list (x ∷ xs) (fits size alignment boundary) before n after l first
