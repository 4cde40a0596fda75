-- ===== src/Heap/Wiped.antt =====
-- src/mem/allocator.c and src/lib/list.c: the free list of a group when one of its blocks is cleared.
use native.Mathlib.Decide.{dec_lt}
use native.Mathlib.Nat.{mul-le-mul_left, mul-suc}
use clay_figure_kernel.Base.{
  ℕ, suc, ◌+◌, ◌*◌, ◌^◌, ◌≤◌, ◌<◌, ◌≡◌, ◌≢◌, ap, sym, ◌∙◌, arith, List, [], ◌∷◌, ◌++◌, ◌⊎◌, inl,
  inr,
}
use clay_figure_kernel.Klist.{Nodes, list_tail}
use clay_figure_kernel.Klist.Chain.{Apart, Chain, Distinct, Distinct-parts, last}
use clay_figure_kernel.Klist.Edit.{IsLinked, IsList}
use clay_figure_kernel.Heap.{Heap, group_at, block_of}
use clay_figure_kernel.Heap.Search.{IsMarked, AllMarked}
use clay_figure_kernel.Heap.Suits.{block_aligned}

-- At each of the nodes `h'` is as `h`.
unfoldable pub SameAt : Nodes → Nodes → List ℕ → Type 0
SameAt h h' [] = Unit
SameAt h h' (x ∷ xs) = (h'.prev x ≡ h.prev x) × (h'.next x ≡ h.next x) × SameAt h h' xs

Chain-same :
    (h h' : Nodes) (a : ℕ) (xs : List ℕ) → SameAt h h' (a ∷ xs) → Chain h a xs → Chain h' a xs
unfolding SameAt Chain
Chain-same h h' a [] same links = tt
Chain-same h h' a (x ∷ xs) (_, next_a, (prev_x, next_x, same)) (next, prev, links) =
    (next_a ∙ next, prev_x ∙ prev, Chain-same h h' x xs (prev_x, next_x, same) links)

last-same :
    (h h' : Nodes) (a : ℕ) (xs : List ℕ)
    → SameAt h h' (a ∷ xs)
    → h'.next (last a xs) ≡ h.next (last a xs)
unfolding SameAt last
last-same h h' a [] (_, next_a, _) = next_a
last-same h h' a (x ∷ xs) (_, _, same) = last-same h h' x xs same

IsLinked-same :
    (h h' : Nodes) (a : ℕ) (xs : List ℕ) → SameAt h h' (a ∷ xs) → IsLinked h a xs → IsLinked h' a xs
unfolding SameAt
IsLinked-same h h' a xs same l = record {
  links = Chain-same h h' a xs same l.links;
  distinct = l.distinct;
  nonnull = l.nonnull;
  first = same.0 ∙ l.first;
  end = last-same h h' a xs same ∙ l.end;
}

Apart-middle :
    (before : List ℕ) (node : ℕ) (after : List ℕ)
    → Distinct (before ++ node ∷ after)
    → Apart node (before ++ after)
unfolding Distinct Apart
Apart-middle [] node after (apart, _) = apart
Apart-middle (y ∷ before) node after (apart, d) =
    ((λ e. met before apart (sym e)), Apart-middle before node after d)
  where
    met : (ys : List ℕ) → Apart y (ys ++ node ∷ after) → y ≢ node
    met [] (ne, _) = ne
    met (z ∷ ys) (_, rest) = met ys rest

-- A number that lies between two multiples that follow each other.
same_multiple : (n p q : ℕ) → 8 < n → n * p ≤ n * q + 8 → n * q + 8 < n * p + n → p ≡ q
same_multiple n p q large low high = elim (dec_lt p q) [
  | yes less ↦ absurd (omega (arith, mul-le-mul_left {m = suc p} {n = q} n less, mul-suc n p))
  | no not_less ↦ elim (dec_lt q p) [
    | yes more ↦ absurd (omega (arith, mul-le-mul_left {m = suc q} {n = p} n more, mul-suc n q))
    | no equal ↦ omega arith
  ]
]

module _ (h : Heap) (i e : ℕ) (power : (group_at h i).block_size ≡ 2 ^ e) (page : e ≤ 21)
    (large : 8 < (group_at h i).block_size) where
  -- The node of another block lies outside of a block.
  other_outside :
      (x y : ℕ)
      → IsMarked h i x
      → IsMarked h i y
      → x ≢ y
      → (y < block_of x) ⊎ (block_of x + (group_at h i).block_size ≤ y)
  other_outside x y mx my ne =
      let (p, at_p) = block_aligned h i e e x power page (omega arith) mx in
      let (q, at_q) = block_aligned h i e e y power page (omega arith) my in
      elim (dec_lt y (block_of x)) [
        | yes low ↦ inl low
        | no not_low ↦ elim (dec_lt y (block_of x + (group_at h i).block_size)) [
          | no high ↦ inr (omega arith)
          | yes inside ↦
              let same =
                same_multiple (2 ^ e) p q (omega (arith, power, large))
                  (omega (arith, at_p, at_q, my.member))
                  (omega (arith, at_p, at_q, my.member, power)) in
              let block : block_of x ≡ block_of y =
                at_p ∙ ap (λ (k : ℕ). 2 ^ e * k) same ∙ sym at_q in
              absurd (ne (mx.member ∙ ap (λ (b : ℕ). b + 8) block ∙ sym my.member))
        ]
      ]

  -- The nodes of the list, and its tail, where the block of `x` is cleared.
  same_nodes :
      (h' h'' : Nodes) (x : ℕ) (ys : List ℕ)
      → IsMarked h i x
      → AllMarked h i ys
      → Apart x ys
      → ((y : ℕ)
          → (y < block_of x) ⊎ (block_of x + (group_at h i).block_size ≤ y)
          → (h''.prev y ≡ h'.prev y) × (h''.next y ≡ h'.next y))
      → SameAt h' h'' (ys ++ list_tail (group_at h i).free_block_list ∷ [])
  unfolding SameAt Apart AllMarked
  same_nodes h' h'' x [] mx _ _ kept =
      let (prev, next) =
        kept (list_tail (group_at h i).free_block_list) (omega (arith, mx.clear_of)) in
      (prev, next, tt)
  same_nodes h' h'' x (y ∷ ys) mx (my, ms) (ne, apart) kept =
      let (prev, next) = kept y (other_outside x y mx my ne) in
      (prev, next, same_nodes h' h'' x ys mx ms apart kept)

  pub wiped-IsList :
      (h' h'' : Nodes) (x : ℕ) (ys : List ℕ)
      → IsMarked h i x
      → AllMarked h i ys
      → Apart x ys
      → ((y : ℕ)
          → (y < block_of x) ⊎ (block_of x + (group_at h i).block_size ≤ y)
          → (h''.prev y ≡ h'.prev y) × (h''.next y ≡ h'.next y))
      → IsList h' (group_at h i).free_block_list ys
      → IsList h'' (group_at h i).free_block_list ys
  unfolding SameAt
  wiped-IsList h' h'' x ys mx ms apart kept l =
      let (prev, next) = kept (group_at h i).free_block_list (omega (arith, mx.clear_of)) in
      IsLinked-same h' h'' (group_at h i).free_block_list
        (ys ++ list_tail (group_at h i).free_block_list ∷ [])
        (prev, next, same_nodes h' h'' x ys mx ms apart kept) l

pub others-Apart :
    (h : Nodes) (list : ℕ) (xs before : List ℕ) (node : ℕ) (after : List ℕ)
    → xs ≡ before ++ node ∷ after
    → IsList h list xs
    → Apart node (before ++ after)
unfolding Distinct
others-Apart h list xs before node after cut l =
    let (d, _, _) = Distinct-parts list xs (list_tail list ∷ []) l.distinct in
    Apart-middle before node after (rw cut at d.1)
