-- ===== src/Types/DList/Insert.antt =====
-- list_append, list_prepend, list_push_back and list_push_front put one node at an end.
use wyrm_os.Base.{
  ℕ, suc, ◌+◌, ◌<◌, ◌^◌, ◌≡◌, refl, ◌≢◌, false, some, [], ◌∷◌, ◌++◌, arith, length, ◌∙◌, given,
  inc64,
}
use wyrm_os.Types.Heap.{
  Ptr, null, Node, Heap, update, Returns, returns, bind, Leaves, leaves, ◌>>=◌,
}
use wyrm_os.Types.DList.{list_create_node, list_append, list_push_back}
use wyrm_os.Types.DList.Chain.{
  Cells, has, mk_node, last, IsList, head_of, Keeps, not_null, IsList-frame, has-ne, has-apart,
  inc_length-append, last-append, Chain-last, Chain-restop, Chain-append,
}

module _ (h : Heap) (l n : Ptr) (x : Node) (l≢0 : l ≢ null) (n≢0 : n ≢ null)
    (at_n : h.node n ≡ some x) where
  append_run_nil :
      (p : Ptr) (s : ℕ)
      → h.list l ≡ some (head_of p null s)
      → Leaves (list_append l n h) tt λ g.
        (g.node n ≡ some (mk_node null null x.value l))
        × (g.list l ≡ some (head_of n n (inc64 s)))
        × ((a : Ptr) → a ≢ n → g.node a ≡ h.node a)
        × ((b : Ptr) → b ≢ l → g.list b ≡ h.list b)
  unfolding list_append
  append_run_nil p s e = (
    record {
      node =
          update
            (update (update h.node n (some (record x { owner = l }))) n
              (some (record x { owner = l; next = null })))
            n (some (mk_node null null x.value l));
      list =
          update (update (update h.list l (some (head_of n null s))) l (some (head_of n n s))) l
            (some (head_of n n (inc64 s)));
    },
    ground arith,
    (ground arith, ground arith, λ a ne. ground arith, λ b ne. ground arith),
  )

  append_run_cons :
      (p t : Ptr) (s : ℕ) (y : Node)
      → h.list l ≡ some (head_of p t s)
      → t ≢ null
      → t ≢ n
      → h.node t ≡ some y
      → Leaves (list_append l n h) tt λ g.
        (g.node n ≡ some (mk_node null t x.value l))
        × (g.node t ≡ some (record y { next = n }))
        × (g.list l ≡ some (head_of p n (inc64 s)))
        × ((a : Ptr) → a ≢ n → a ≢ t → g.node a ≡ h.node a)
        × ((b : Ptr) → b ≢ l → g.list b ≡ h.list b)
  unfolding list_append
  append_run_cons p t s y e t≢0 t≢n at_t = (
    record {
      node =
          update
            (update
              (update (update h.node n (some (record x { owner = l }))) n
                (some (record x { owner = l; next = null })))
              n (some (mk_node null t x.value l)))
            t (some (record y { next = n }));
      list = update (update h.list l (some (head_of p n s))) l (some (head_of p n (inc64 s)));
    },
    ground arith,
    (ground arith, ground arith, ground arith, λ a ne. ground arith, λ b ne. ground arith),
  )

  -- list_append puts the node `n` behind the nodes of the list, in front of nothing, and touches
  -- only the nodes of the list, `n` and the list object.
  pub list_append-append :
      (xs : Cells)
      → IsList h l xs
      → has n xs ≡ false
      → length xs + 1 < 2 ^ 64
      → Returns
          (λ _ g. IsList g l (xs ++ (n, x.value) ∷ []) × Keeps l ((n, x.value) ∷ xs) h g)
          (list_append l n h)
  list_append-append [] is out fits =
      leaves (append_run_nil null 0 is.holds) λ g (new, list, nodes, lists). (
        record { ne_null = l≢0; holds = list; chain = (n≢0, refl, new, tt) },
        record { nodes = λ a o. nodes a (ground arith); lists = lists },
      )
  list_append-append ((a, v) ∷ xs) is out fits =
      given (Chain-last h.node l null a v xs null is.chain) λ (p, w, at_last, ne, i).
        leaves
          (append_run_cons a (last xs a) (suc (length xs)) _ is.holds ne
            (has-ne (last xs a) n ((a, v) ∷ xs) out i) at_last)
          λ g (new, old, list, nodes, lists). (
            record {
              ne_null = l≢0;
              holds =
                  list
                  ∙ cc (
                    last-append xs ((n, x.value) ∷ []) a,
                    inc_length-append (n, x.value) xs (omega arith),
                  );
              chain =
                  Chain-append g.node l null ((a, v) ∷ xs) ((n, x.value) ∷ []) null
                    (Chain-restop h.node l null ((a, v) ∷ xs) null n is.chain
                      (λ b j. nodes b (has-ne b n ((a, v) ∷ xs) out j))
                      (λ m j e. old ∙ cc (at_last, e)))
                    (n≢0, refl, new, tt) (λ b. has-apart b n x.value ((a, v) ∷ xs) out);
            },
            record { nodes = λ b o. nodes b (ground arith) (λ e. ground arith); lists = lists },
          )

-- the heap after `list_create_node`
abbrev pub with_node : Heap → (p owner v : Ptr) → Heap
with_node h p owner v = record h { node = update h.node p (some (mk_node null null v owner)) }

pub list_create_node-run :
    (fresh owner v : Ptr) (h : Heap)
    → fresh ≢ null
    → list_create_node fresh owner v h ≡ some (fresh, with_node h fresh owner v)
unfolding list_create_node
list_create_node-run fresh owner v h ne = ground arith

pub IsList-with_node :
    (h : Heap) (l : Ptr) (xs : Cells) (fresh owner v : Ptr)
    → IsList h l xs
    → has fresh xs ≡ false
    → IsList (with_node h fresh owner v) l xs
IsList-with_node h l xs fresh owner v is out =
    IsList-frame h l xs is (λ a i. ground (arith, has-ne a fresh xs out i)) refl

-- list_push_back allocates a node for `v` and puts it behind the list; the result is the node.
pub list_push_back-append :
    (h : Heap) (l fresh owner v : Ptr) (xs : Cells)
    → IsList h l xs
    → fresh ≢ null
    → has fresh xs ≡ false
    → length xs + 1 < 2 ^ 64
    → Returns
        (λ p g. (p ≡ fresh) × IsList g l (xs ++ (fresh, v) ∷ []) × Keeps l ((fresh, v) ∷ xs) h g)
        (list_push_back fresh owner l v h)
unfolding list_push_back
list_push_back-append h l fresh owner v xs is ne out fits =
    rw (not_null l is.ne_null, list_create_node-run fresh owner v h ne, ◌>>=◌)
      (bind
        (list_append-append (with_node h fresh owner v) l fresh (mk_node null null v owner)
          is.ne_null ne (ground arith) xs (IsList-with_node h l xs fresh owner v is out) out fits)
        λ u g (is', keeps). returns (
          refl,
          is',
          record { nodes = λ a o. keeps.nodes a o ∙ ground arith; lists = keeps.lists },
        ))
