-- ===== src/Types/DList/Tests.antt =====
-- A heap with a list of two nodes, runs of list.c on it, and the laws at these inputs.
use wyrm_os.Base.{◌≡◌, refl, none, some, [], ◌∷◌, arith, ltb}
use wyrm_os.Types.Heap.{Heap, update, Returns}
use wyrm_os.Types.DList.{list_push_back, list_delete}
use wyrm_os.Types.DList.Chain.{Cells, mk_node, IsList, head_of, Keeps}
use wyrm_os.Types.DList.Insert.{list_push_back-append}
use wyrm_os.Types.DList.Delete.{list_delete-append}
use wyrm_os.Types.DList.Sort.{list_sort_cmp, list_sort_cmp-none}

-- the list object at 100 holds the nodes 1 and 2, with values 20 and 10
abbrev heap : Heap
heap = record {
  node = update (update (λ _. none) 1 (some (mk_node 2 0 20 100))) 2 (some (mk_node 0 1 10 100));
  list = update (λ _. none) 100 (some (head_of 1 2 2));
}

abbrev cells : Cells
cells = (1, 20) ∷ (2, 10) ∷ []

cells-IsList : IsList heap 100 cells
cells-IsList = record {
  ne_null = omega arith;
  holds = refl;
  chain = (omega arith, refl, refl, (omega arith, refl, refl, tt));
}

list_push_back-append_example :
    Returns
      (λ p g.
        (p ≡ 7)
        × IsList g 100 ((1, 20) ∷ (2, 10) ∷ (7, 5) ∷ [])
        × Keeps 100 ((7, 5) ∷ cells) heap g)
      (list_push_back 7 3 100 5 heap)
list_push_back-append_example =
    list_push_back-append heap 100 7 3 5 cells cells-IsList (omega arith) refl (omega arith)

list_delete-append_example :
    Returns
      (λ _ g. IsList g 100 ((2, 10) ∷ []) × (g.node 1 ≡ none) × Keeps 100 cells heap g)
      (list_delete 100 1 heap)
list_delete-append_example =
    list_delete-append heap 100 1 20 [] ((2, 10) ∷ []) cells-IsList (omega arith)

list_sort_cmp-none_example : list_sort_cmp (λ x y. ltb y x) 9 100 heap ≡ none
list_sort_cmp-none_example =
    list_sort_cmp-none heap 100 1 2 20 10 (λ x y. ltb y x) 9 [] cells-IsList refl refl
