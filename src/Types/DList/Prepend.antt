-- ===== src/Types/DList/Prepend.antt =====
-- list_prepend and list_push_front put one node in front of a list.
use wyrm_os.Base.{
  ℕ, suc, ◌+◌, ◌<◌, ◌^◌, ◌≡◌, refl, ◌≢◌, false, some, [], ◌∷◌, arith, length, ◌∙◌, inc64,
}
use wyrm_os.Types.Heap.{
  Ptr, null, Node, Heap, update, Returns, returns, bind, Leaves, leaves, ◌>>=◌,
}
use wyrm_os.Types.DList.{list_append, list_prepend, list_push_front}
use wyrm_os.Types.DList.Chain.{
  Cells, has, mk_node, last, IsList, head_of, Keeps, has-ne, not_null, Chain-restart, head_of-eq,
}
use wyrm_os.Types.DList.Insert.{
  list_append-append, with_node, list_create_node-run, IsList-with_node,
}

module _ (h : Heap) (l n : Ptr) (x : Node) (l≢0 : l ≢ null) (n≢0 : n ≢ null)
    (at_n : h.node n ≡ some x) where
  prepend_nil :
      (p : Ptr) (s : ℕ)
      → h.list l ≡ some (head_of null p s)
      → list_prepend l n h ≡ list_append l n h
  unfolding list_prepend
  prepend_nil p s e = ground arith

  prepend_run :
      (a t : Ptr) (s : ℕ) (y : Node)
      → h.list l ≡ some (head_of a t s)
      → a ≢ null
      → a ≢ n
      → h.node a ≡ some y
      → Leaves (list_prepend l n h) tt λ g.
        (g.node n ≡ some (mk_node a null x.value l))
        × (g.node a ≡ some (record y { prev = n }))
        × (g.list l ≡ some (head_of n t (inc64 s)))
        × ((b : Ptr) → b ≢ n → b ≢ a → g.node b ≡ h.node b)
        × ((b : Ptr) → b ≢ l → g.list b ≡ h.list b)
  unfolding list_prepend
  prepend_run a t s y e a≢0 a≢n at_a = (
    record {
      node =
          update
            (update
              (update (update h.node n (some (record x { owner = l }))) n
                (some (record x { owner = l; prev = null })))
              a (some (record y { prev = n })))
            n (some (mk_node a null x.value l));
      list = update (update h.list l (some (head_of n t s))) l (some (head_of n t (inc64 s)));
    },
    ground arith,
    (ground arith, ground arith, ground arith, λ b d f. ground arith, λ b ne. ground arith),
  )

  -- list_prepend puts the node `n` in front of the nodes of the list, whether or not it has any.
  pub list_prepend-cons :
      (xs : Cells)
      → IsList h l xs
      → has n xs ≡ false
      → length xs + 1 < 2 ^ 64
      → Returns
          (λ _ g. IsList g l ((n, x.value) ∷ xs) × Keeps l ((n, x.value) ∷ xs) h g)
          (list_prepend l n h)
  list_prepend-cons [] is out fits =
      rw (prepend_nil null 0 is.holds) (list_append-append h l n x l≢0 n≢0 at_n [] is out fits)
  list_prepend-cons ((a, v) ∷ xs) is out fits =
      leaves
        (prepend_run a (last xs a) (suc (length xs)) _ is.holds is.chain.0 (ground arith)
          is.chain.2)
        λ g (new, old, list, nodes, lists). (
          record {
            ne_null = l≢0;
            holds = list ∙ head_of-eq refl refl (omega arith);
            chain = (
              n≢0,
              out,
              new,
              Chain-restart h.node l null n ((a, v) ∷ xs) null is.chain
                  (λ b i ne. nodes b (has-ne b n ((a, v) ∷ xs) out i) ne)
                  (λ m i e. old ∙ cc (e, is.chain.2)),
            );
          },
          record { nodes = λ b o. nodes b (ground arith) (ground arith); lists = lists },
        )

-- list_push_front allocates a node for `v` and puts it in front of the list; the result is the
-- node.
pub list_push_front-cons :
    (h : Heap) (l fresh owner v : Ptr) (xs : Cells)
    → IsList h l xs
    → fresh ≢ null
    → has fresh xs ≡ false
    → length xs + 1 < 2 ^ 64
    → Returns
        (λ p g. (p ≡ fresh) × IsList g l ((fresh, v) ∷ xs) × Keeps l ((fresh, v) ∷ xs) h g)
        (list_push_front fresh owner l v h)
unfolding list_push_front
list_push_front-cons h l fresh owner v xs is ne out fits =
    rw (not_null l is.ne_null, list_create_node-run fresh owner v h ne, ◌>>=◌)
      (bind
        (list_prepend-cons (with_node h fresh owner v) l fresh (mk_node null null v owner)
          is.ne_null ne (ground arith) xs (IsList-with_node h l xs fresh owner v is out) out fits)
        λ u g (is', keeps). returns (
          refl,
          is',
          record { nodes = λ a o. keeps.nodes a o ∙ ground arith; lists = keeps.lists },
        ))
