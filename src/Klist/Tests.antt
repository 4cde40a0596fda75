-- ===== src/Klist/Tests.antt =====
-- src/lib/list.c: a list at 100 with one node, at 8, and one without nodes at 200.
use clay_figure_kernel.Base.{◌≡◌, refl, [], ◌∷◌, done, panic}
use clay_figure_kernel.Klist.{Nodes, null, init_list, list_push, list_remove, list_pop}
use clay_figure_kernel.Klist.Chain.{Apart}
use clay_figure_kernel.Klist.Edit.{IsList, Untouched, Edited}
use clay_figure_kernel.Klist.Ops.{
  TakenOut, ends, init_list-IsList, list_push-IsList, list_remove-IsList, list_pop-IsList,
  list_pop_empty,
}
use clay_figure_kernel.Klist.Samples.{blank, one_node, ne, one_node-IsList}

new_node : Apart 24 (null ∷ ends 100 (8 ∷ []))
unfolding Apart
new_node = (ne 24 0 refl, (ne 24 100 refl, (ne 24 8 refl, (ne 24 116 refl, tt))))

list_push_example :
    Edited one_node (list_push one_node 100 24) 100 (24 ∷ 8 ∷ 116 ∷ []) (24 ∷ ends 100 (8 ∷ []))
list_push_example = list_push-IsList one_node 100 24 (8 ∷ []) one_node-IsList new_node

list_remove_example : TakenOut one_node (list_remove one_node 8) 100 8 (8 ∷ []) []
list_remove_example = list_remove-IsList one_node 100 8 [] [] one_node-IsList

list_pop_example :
    (h' : Nodes) × (list_pop one_node 100 ≡ done (8, h'))
    × IsList h' 100 []
    × Untouched one_node h' (ends 100 (8 ∷ []))
    × (h'.prev 8 ≡ null)
    × (h'.next 8 ≡ null)
list_pop_example = list_pop-IsList one_node 100 8 [] one_node-IsList

list_pop_empty_example : list_pop (init_list blank 200) 200 ≡ panic
list_pop_empty_example =
    list_pop_empty (init_list blank 200) 200 (init_list-IsList blank 200 (ne 0 200 refl))
