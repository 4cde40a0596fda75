-- ===== src/Klist/Ops.antt =====
-- src/lib/list.c: the operations on the sequence of nodes that a list holds.
use clay_figure_kernel.Base.{
  ℕ, suc, ◌+◌, ◌≡◌, ◌≢◌, refl, ap, sym, ◌∙◌, arith, List, [], ◌∷◌, ◌++◌, ◌==◌, ==_iff, ne→ne, Run,
  done, panic, length,
}
use clay_figure_kernel.Klist.{
  Nodes, null, list_head, list_tail, put, init_list, list_push, list_append, list_remove, list_pop,
  list_empty,
}
use clay_figure_kernel.Klist.Chain.{Apart, Distinct, Chain, last, put_self, put_ne, Apart-append}
use clay_figure_kernel.Klist.Edit.{
  IsList, Untouched, Edited, list_in-IsLinked, list_remove-IsLinked, list_remove-null,
}

append_assoc : (xs ys zs : List ℕ) → (xs ++ ys) ++ zs ≡ xs ++ (ys ++ zs)
append_assoc [] ys zs = refl
append_assoc (x ∷ xs) ys zs = ap (λ l. x ∷ l) (append_assoc xs ys zs)

-- `init_list` makes the list empty.
pub init_list-IsList : (h : Nodes) (list : ℕ) → null ≢ list → IsList (init_list h list) list []
unfolding init_list Chain Distinct Apart last
init_list-IsList h list ne =
    let head_tail : list ≢ list + 16 = λ e. omega (arith, e) in
    let tail_head : list + 16 ≢ list = λ e. omega (arith, e) in
    record {
      links = (
        put_ne (put h.next list (list + 16)) (list + 16) null list tail_head
            ∙ put_self h.next list (list + 16),
        put_self (put h.prev list null) (list + 16) list,
        tt,
      );
      distinct = ((head_tail, tt), (tt, tt));
      nonnull = (ne, ((λ e. omega (arith, e)), tt));
      first =
          put_ne (put h.prev list null) (list + 16) list list tail_head ∙ put_self h.prev list null;
      end = put_self (put h.next list (list + 16)) (list + 16) null;
    }

-- The nodes of a list, with its head and its tail.
abbrev pub ends : ℕ → List ℕ → List ℕ
ends list xs = list_head list ∷ xs ++ list_tail list ∷ []

-- `list_push` of a node that is neither NULL nor in the list, nor one of its ends: it returns, the
-- node is the first of the list, and the nodes outside are untouched.
pub list_push-IsList :
    (h : Nodes) (list node : ℕ) (xs : List ℕ)
    → IsList h list xs
    → Apart node (null ∷ ends list xs)
    → Edited h
        (list_push h list node)
        list
        ((node ∷ xs) ++ list_tail list ∷ [])
        (node ∷ ends list xs)
unfolding list_push Chain
list_push-IsList h list node [] l apart =
    rw (l.links.0) (list_in-IsLinked h node (list + 16) list [] [] l apart)
list_push-IsList h list node (x ∷ xs) l apart =
    rw (l.links.0) (list_in-IsLinked h node x list [] (xs ++ list_tail list ∷ []) l apart)

-- `list_append` likewise, with the node as the last of the list.
pub list_append-IsList :
    (h : Nodes) (list node : ℕ) (xs : List ℕ)
    → IsList h list xs
    → Apart node (null ∷ ends list xs)
    → Edited h
        (list_append h list node)
        list
        ((xs ++ node ∷ []) ++ list_tail list ∷ [])
        (node ∷ ends list xs)
unfolding list_append
list_append-IsList h list node xs l apart =
    rw (append_assoc xs (node ∷ []) (list_tail list ∷ []))
      (list_in-IsLinked h node (list + 16) list xs [] l apart)

-- How the node `node` of a list is taken out of it: the call returns `r`, the list is left with
-- `xs`, the node has no links, and the nodes outside are untouched.
abbrev pub TakenOut : Nodes → Run Nodes → ℕ → ℕ → List ℕ → List ℕ → Type 0
TakenOut h r list node before xs =
    (h' : Nodes) × (r ≡ done h')
    × IsList h' list xs
    × Untouched h h' (ends list before)
    × (h'.prev node ≡ null)
    × (h'.next node ≡ null)

-- `list_remove` of a node of a list returns, and leaves the other nodes in their order.
pub list_remove-IsList :
    (h : Nodes) (list node : ℕ) (xs ys : List ℕ)
    → IsList h list (xs ++ node ∷ ys)
    → TakenOut h (list_remove h node) list node (xs ++ node ∷ ys) (xs ++ ys)
list_remove-IsList h list node xs [] l =
    let e = append_assoc xs (node ∷ []) (list_tail list ∷ []) in
    let e' = append_assoc xs [] (list_tail list ∷ []) in
    rw (e, e') (list_remove-IsLinked h node (list + 16) list xs [] (rw e at l))
list_remove-IsList h list node xs (y ∷ ys) l =
    let e = append_assoc xs (node ∷ y ∷ ys) (list_tail list ∷ []) in
    let e' = append_assoc xs (y ∷ ys) (list_tail list ∷ []) in
    rw (e, e') (list_remove-IsLinked h node y list xs (ys ++ list_tail list ∷ []) (rw e at l))

-- `list_pop` of a list that is not empty returns its first node and takes it out.
pub list_pop-IsList :
    (h : Nodes) (list node : ℕ) (xs : List ℕ)
    → IsList h list (node ∷ xs)
    → (h' : Nodes) × (list_pop h list ≡ done (node, h'))
      × IsList h' list xs
      × Untouched h h' (ends list (node ∷ xs))
      × (h'.prev node ≡ null)
      × (h'.next node ≡ null)
unfolding list_pop Chain
list_pop-IsList h list node xs l =
    let (h', e, linked, others, prev, next) = list_remove-IsList h list node [] xs l in
    (h', rw (l.links.0, e) refl, linked, others, prev, next)

-- `list_pop` of an empty list takes the tail for a node, and goes through its `next`, which is NULL.
pub list_pop_empty : (h : Nodes) (list : ℕ) → IsList h list [] → list_pop h list ≡ panic
unfolding list_pop Chain Apart Distinct last
list_pop_empty h list l =
    rw
      (
        l.links.0,
        list_remove-null h list (list + 16) l.nonnull.0 l.nonnull.1.0 l.links.1 l.end
            (λ e. l.distinct.0.0 (sym e)),
      )
      refl

-- `list_empty` tells whether the list has no nodes.
pub list_empty_lem :
    (h : Nodes) (list : ℕ) (xs : List ℕ) → IsList h list xs → list_empty h list ≡ (length xs == 0)
unfolding list_empty Chain Distinct Apart
list_empty_lem h list [] l = rw (l.links.0, (==_iff (list + 16) (list + 16)).1 refl) refl
list_empty_lem h list (x ∷ xs) l =
    let (_, (x_tail, _)) = Apart-append x xs (list_tail list ∷ []) l.distinct.1.0 in
    rw (l.links.0, ne→ne x (list + 16) x_tail, ne→ne (suc (length xs)) 0 (λ e. omega (arith, e)))
      refl
