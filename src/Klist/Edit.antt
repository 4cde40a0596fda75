-- ===== src/Klist/Edit.antt =====
-- src/lib/list.c: the operations that change a list, and what a list is.
use clay_figure_kernel.Base.{
  ℕ, ◌≡◌, ◌≢◌, refl, ap, sym, ◌∙◌, List, [], ◌∷◌, ◌++◌, ne→ne, Run, done, panic,
}
use clay_figure_kernel.Klist.{
  Nodes, null, list_head, list_tail, put, put_prev, put_next, through, list_in, list_remove,
}
use clay_figure_kernel.Klist.Chain.{
  Apart, Distinct, Chain, last, put_self, put_ne, Apart-append, append-Apart, Apart-last,
  Apart-Before, Distinct-parts, Distinct-other, Distinct-omit, Distinct-insert, last-Before,
  Chain-put_next, Chain-put_prev, Chain-split, Chain-join,
}

-- From `a` on, the nodes `zs` are linked, none is twice there or NULL, and both ends are marked.
pub record IsLinked (h : Nodes) (a : ℕ) (zs : List ℕ) : Type 0 where
  pub links : Chain h a zs
  pub distinct : Distinct (a ∷ zs)
  pub nonnull : Apart null (a ∷ zs)
  pub first : h.prev a ≡ null
  pub end : h.next (last a zs) ≡ null

-- From the head on, `xs` are the nodes of the list up to its tail.
abbrev pub IsList : Nodes → ℕ → List ℕ → Type 0
IsList h list xs = IsLinked h (list_head list) (xs ++ list_tail list ∷ [])

-- The nodes outside `xs` are as they were.
abbrev pub Untouched : Nodes → Nodes → List ℕ → Type 0
Untouched h h' xs = (x : ℕ) → Apart x xs → (h'.prev x ≡ h.prev x) × (h'.next x ≡ h.next x)

pub through_nonnull : {A : Type 0} (a : ℕ) (rest : Run A) → null ≢ a → through a rest ≡ rest
unfolding through
through_nonnull a rest ne = rw (ne→ne a null (λ e. ne (sym e))) refl

-- The four stores of `list_in`, between `p` and `q`.
abbrev pub linked_in : Nodes → ℕ → ℕ → ℕ → Nodes
linked_in h p node q = put_prev (put_next (put_prev (put_next h p node) node p) node q) q node

-- The stores of `list_remove`, between `p` and `q`.
abbrev pub linked_out : Nodes → ℕ → ℕ → ℕ → Nodes
linked_out h p node q = put_prev (put_next (put_prev (put_next h p q) q p) node null) node null

module _ (h : Nodes) (p node q : ℕ) (np : null ≢ p) (nn : null ≢ node) (nq : null ≢ q) where
  pub list_in_lem : h.prev q ≡ p → list_in h node q ≡ done (linked_in h p node q)
  unfolding list_in
  list_in_lem prev =
      through_nonnull q _ nq ∙ rw prev (through_nonnull p _ np ∙ through_nonnull node _ nn)

  pub list_remove_lem :
      h.prev node ≡ p
      → h.next node ≡ q
      → node ≢ p
      → list_remove h node ≡ done (linked_out h p node q)
  unfolding list_remove
  list_remove_lem prev next ne =
      through_nonnull node _ nn
      ∙ rw (prev, next)
          (through_nonnull p _ np
            ∙ rw (put_ne h.next p q node (λ e. ne (sym e)), next) (through_nonnull q _ nq))

-- A node that none follows cannot be taken out.
pub list_remove-null :
    (h : Nodes) (p node : ℕ)
    → null ≢ p
    → null ≢ node
    → h.prev node ≡ p
    → h.next node ≡ null
    → node ≢ p
    → list_remove h node ≡ panic
unfolding list_remove through
list_remove-null h p node np nn prev next ne =
    rw
      (
        ne→ne node null (λ e. nn (sym e)),
        prev,
        ne→ne p null (λ e. np (sym e)),
        next,
        put_ne h.next p null node (λ e. ne (sym e)),
        next,
      )
      refl

module _ (h : Nodes) (node q a : ℕ) (xs ys : List ℕ) where
  pub Chain-linked_in :
      Distinct (a ∷ xs ++ q ∷ ys)
      → Apart node (a ∷ xs ++ q ∷ ys)
      → Chain h a (xs ++ q ∷ ys)
      → Chain (linked_in h (last a xs) node q) a (xs ++ node ∷ q ∷ ys)
  unfolding Chain Distinct Apart
  Chain-linked_in d (node_a, apart) links =
      let (left, next, prev, right) = Chain-split h a xs q ys links in
      let (dx, (q_ys, dy), (p_q, p_ys)) = Distinct-parts a xs (q ∷ ys) d in
      let (node_xs, (node_q, node_ys)) = Apart-append node xs (q ∷ ys) apart in
      let q_xs = Distinct-other q xs (q ∷ ys) d.1 (λ x e. e.0) in
      let p = last a xs in
      let h1 = put_next h p node in
      let h2 = put_prev h1 node p in
      let h3 = put_next h2 node q in
      Chain-join (linked_in h p node q) a xs node (q ∷ ys)
        (Chain-put_prev h3 q node a xs q_xs (
          Chain-put_next h2 node q a xs (Apart-Before node a xs node_a node_xs) (
            Chain-put_prev h1 node p a xs node_xs
              (Chain-put_next h p node a xs (last-Before a xs dx) left))))
        (put_ne h1.next node q p (Apart-last node a xs node_a node_xs) ∙ put_self h.next p node)
        (put_ne h2.prev q node node (λ e. node_q (sym e)) ∙ put_self h.prev node p)
        (
          put_self h1.next node q,
          put_self h2.prev q node,
          Chain-put_prev h3 q node q ys q_ys (
              Chain-put_next h2 node q q ys (Apart-Before node q ys node_q node_ys) (
                Chain-put_prev h1 node p q ys node_ys
                  (Chain-put_next h p node q ys (Apart-Before p q ys p_q p_ys) right))),
        )

  pub Chain-linked_out :
      Distinct (a ∷ xs ++ node ∷ q ∷ ys)
      → Chain h a (xs ++ node ∷ q ∷ ys)
      → Chain (linked_out h (last a xs) node q) a (xs ++ q ∷ ys)
  unfolding Chain Distinct Apart
  Chain-linked_out d links =
      let (left, _, _, (_, _, right)) = Chain-split h a xs node (q ∷ ys) links in
      let (dx, ((node_q, node_ys), (q_ys, dy)), (p_node, (p_q, p_ys))) =
        Distinct-parts a xs (node ∷ q ∷ ys) d in
      let (node_a, node_xs) = Distinct-other node (a ∷ xs) (node ∷ q ∷ ys) d (λ x e. e.0) in
      let q_xs = Distinct-other q xs (node ∷ q ∷ ys) d.1 (λ x e. e.1.0) in
      let p = last a xs in
      let h1 = put_next h p q in
      let h2 = put_prev h1 q p in
      let h3 = put_next h2 node null in
      Chain-join (linked_out h p node q) a xs q ys
        (Chain-put_prev h3 node null a xs node_xs (
          Chain-put_next h2 node null a xs (Apart-Before node a xs node_a node_xs) (
            Chain-put_prev h1 q p a xs q_xs
              (Chain-put_next h p q a xs (last-Before a xs dx) left))))
        (put_ne h1.next node null p (λ e. p_node (sym e)) ∙ put_self h.next p q)
        (put_ne h2.prev node null q node_q ∙ put_self h.prev q p)
        (Chain-put_prev h3 node null q ys node_ys (
          Chain-put_next h2 node null q ys (Apart-Before node q ys node_q node_ys) (
            Chain-put_prev h1 q p q ys q_ys
              (Chain-put_next h p q q ys (Apart-Before p q ys p_q p_ys) right))))

pub last-append : (a : ℕ) (xs : List ℕ) (q : ℕ) (ys : List ℕ) → last a (xs ++ q ∷ ys) ≡ last q ys
unfolding last
last-append a [] q ys = refl
last-append a (x ∷ xs) q ys = last-append x xs q ys

put_twice_ne : (f : ℕ → ℕ) (a u b v x : ℕ) → x ≢ a → x ≢ b → put (put f a u) b v x ≡ f x
put_twice_ne f a u b v x ne_a ne_b =
    put_ne (put f a u) b v x (λ e. ne_b (sym e)) ∙ put_ne f a u x (λ e. ne_a (sym e))

-- How a call that changes the list ends: it returns, the list is now `zs`, and the nodes outside
-- are untouched.
abbrev pub Edited : Nodes → Run Nodes → ℕ → List ℕ → List ℕ → Type 0
Edited h r a zs outside = (h' : Nodes) × (r ≡ done h') × IsLinked h' a zs × Untouched h h' outside

module _ (h : Nodes) (node q a : ℕ) (xs ys : List ℕ) where
  pub list_in-IsLinked :
      IsLinked h a (xs ++ q ∷ ys)
      → Apart node (null ∷ a ∷ xs ++ q ∷ ys)
      → Edited h (list_in h node q) a (xs ++ node ∷ q ∷ ys) (node ∷ a ∷ xs ++ q ∷ ys)
  unfolding Distinct Apart last
  list_in-IsLinked l (node_null, (node_a, apart)) =
      let (_, next, prev, _) = Chain-split h a xs q ys l.links in
      let (null_a, null_zs) = l.nonnull in
      let (null_xs, (null_q, null_ys)) = Apart-append null xs (q ∷ ys) null_zs in
      let (_, (a_q, _)) = Apart-append a xs (q ∷ ys) l.distinct.0 in
      let (_, (node_q, node_ys)) = Apart-append node xs (q ∷ ys) apart in
      let (_, _, (p_q, p_ys)) = Distinct-parts a xs (q ∷ ys) l.distinct in
      let p = last a xs in
      let linked : IsLinked (linked_in h p node q) a (xs ++ node ∷ q ∷ ys) = record {
        links = Chain-linked_in h node q a xs ys l.distinct (node_a, apart) l.links;
        distinct = Distinct-insert node (a ∷ xs) (q ∷ ys) (node_a, apart) l.distinct;
        nonnull = (
          null_a,
          append-Apart null xs (node ∷ q ∷ ys) null_xs
              ((λ e. node_null (sym e)), (null_q, null_ys)),
        );
        first = put_twice_ne h.prev node p q node a (λ e. node_a (sym e)) a_q ∙ l.first;
        end =
            ap (linked_in h p node q).next (last-append a xs node (q ∷ ys))
            ∙ put_twice_ne h.next p node node q (last q ys)
                (λ e. Apart-last p q ys p_q p_ys (sym e))
                (λ e. Apart-last node q ys node_q node_ys (sym e))
            ∙ ap h.next (sym (last-append a xs q ys))
            ∙ l.end;
      } in
      (
        linked_in h p node q,
        list_in_lem h p node q (Apart-last null a xs null_a null_xs) (λ e. node_null (sym e)) null_q
            prev,
        linked,
        λ x (x_node, (x_a, x_zs)).
            let (x_xs, (x_q, _)) = Apart-append x xs (q ∷ ys) x_zs in
            (
              put_twice_ne h.prev node p q node x x_node x_q,
              put_twice_ne h.next p node node q x (Apart-last x a xs x_a x_xs) x_node,
            ),
      )

  -- The node that is taken out has no links left.
  pub list_remove-IsLinked :
      IsLinked h a (xs ++ node ∷ q ∷ ys)
      → (h' : Nodes) × (list_remove h node ≡ done h')
        × IsLinked h' a (xs ++ q ∷ ys)
        × Untouched h h' (a ∷ xs ++ node ∷ q ∷ ys)
        × (h'.prev node ≡ null)
        × (h'.next node ≡ null)
  unfolding Distinct Apart last Chain
  list_remove-IsLinked l =
      let (_, _, prev, (next, _, _)) = Chain-split h a xs node (q ∷ ys) l.links in
      let (null_a, null_zs) = l.nonnull in
      let (null_xs, (null_node, (null_q, null_ys))) =
        Apart-append null xs (node ∷ q ∷ ys) null_zs in
      let (_, (a_node, (a_q, _))) = Apart-append a xs (node ∷ q ∷ ys) l.distinct.0 in
      let (_, ((node_q, node_ys), _), (p_node, (p_q, p_ys))) =
        Distinct-parts a xs (node ∷ q ∷ ys) l.distinct in
      let p = last a xs in
      let linked : IsLinked (linked_out h p node q) a (xs ++ q ∷ ys) = record {
        links = Chain-linked_out h node q a xs ys l.distinct l.links;
        distinct = Distinct-omit node (a ∷ xs) (q ∷ ys) l.distinct;
        nonnull = (null_a, append-Apart null xs (q ∷ ys) null_xs (null_q, null_ys));
        first = put_twice_ne h.prev q p node null a a_q a_node ∙ l.first;
        end =
            ap (linked_out h p node q).next (last-append a xs q ys)
            ∙ put_twice_ne h.next p q node null (last q ys)
                (λ e. Apart-last p q ys p_q p_ys (sym e))
                (λ e. Apart-last node q ys node_q node_ys (sym e))
            ∙ ap h.next (sym (last-append a xs node (q ∷ ys)))
            ∙ l.end;
      } in
      (
        linked_out h p node q,
        list_remove_lem h p node q (Apart-last null a xs null_a null_xs) null_node null_q prev next
            (λ e. p_node (sym e)),
        linked,
        (λ x (x_a, x_zs).
            let (x_xs, (x_node, (x_q, _))) = Apart-append x xs (node ∷ q ∷ ys) x_zs in
            (
              put_twice_ne h.prev q p node null x x_q x_node,
              put_twice_ne h.next p q node null x (Apart-last x a xs x_a x_xs) x_node,
            )),
        put_self (put h.prev q p) node null,
        put_self (put h.next p q) node null,
      )
