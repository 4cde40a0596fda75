-- ===== src/Klist/Samples.antt =====
-- src/lib/list.c: two heaps for the tests: one without lists, and one with a list at 100 that has one
-- node, at 8.
use clay_figure_kernel.Base.{ℕ, ◌≡◌, ◌≢◌, refl, arith, false, [], ◌∷◌, ◌==◌}
use clay_figure_kernel.Klist.{Nodes, put}
use clay_figure_kernel.Klist.Chain.{Apart, Distinct, Chain, last}
use clay_figure_kernel.Klist.Edit.{IsList}

abbrev pub blank : Nodes
blank = record { prev = λ _. 0; next = λ _. 0 }

abbrev pub one_node : Nodes
one_node = record { prev = put (put (λ _. 0) 8 100) 116 8; next = put (put (λ _. 0) 100 8) 8 116 }

pub ne : (a b : ℕ) → (a == b) ≡ false → a ≢ b
ne a b e = λ same. ground (arith)

pub one_node-IsList : IsList one_node 100 (8 ∷ [])
unfolding put Chain Apart Distinct last
one_node-IsList = record {
  links = (refl, refl, (refl, refl, tt));
  distinct = ((ne 100 8 refl, (ne 100 116 refl, tt)), ((ne 8 116 refl, tt), (tt, tt)));
  nonnull = (ne 0 100 refl, (ne 0 8 refl, (ne 0 116 refl, tt)));
  first = refl;
  end = refl;
}
