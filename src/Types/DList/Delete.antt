-- ===== src/Types/DList/Delete.antt =====
-- list_delete unlinks and frees one node, wherever it stands in the list.
use wyrm_os.Base.{
  ℕ, ◌<◌, ◌^◌, ◌≡◌, ◌≢◌, false, some, none, [], ◌∷◌, ◌++◌, arith, ◌==◌, length, Option, ◌∙◌, sym,
  given, inl, inr, dec64, if◌then◌else◌, Bool-cases,
}
use wyrm_os.Types.Heap.{Ptr, null, Node, Heap, update, Returns, Leaves, leaves}
use wyrm_os.Types.DList.{list_delete}
use wyrm_os.Types.DList.Chain.{
  Cells, has, mk_node, first, last, IsList, head_of, Keeps, has-ne, last-append, Chain-restop,
  Chain-restart, Chain-append, Chain-split, head_of-eq, not-has-parts, dec_length, Chain-node,
  last-cases, last-in, first-in, last-ne, first-ne, Apart-ne, not-has-left, Apart-tail,
}

-- the heap with `f` applied at a node, unless the pointer is NULL
abbrev pub relink : (Ptr → Option Node) → Ptr → Node → Ptr → Option Node
relink m p n = if p == null then m else update m p (some n)

module _ (h : Heap) (l n v p q : Ptr) (y z : Node) (hd tl : Ptr) (s : ℕ) (l≢0 : l ≢ null)
    (at_n : h.node n ≡ some (mk_node q p v l)) (at_l : h.list l ≡ some (head_of hd tl s))
    (at_p : p ≢ null → h.node p ≡ some y) (at_q : q ≢ null → h.node q ≡ some z) (p≢n : p ≢ n)
    (q≢n : q ≢ n) (p≢q : p ≢ null → p ≢ q) where
  abbrev hd' : Ptr
  hd' = if n == hd then q else hd

  abbrev tl' : Ptr
  tl' = if n == tl then p else tl

  relink-same :
      (a : Ptr)
      → a ≢ n
      → (p ≢ null → a ≢ p)
      → (q ≢ null → a ≢ q)
      → update (relink (relink h.node p (record y { next = q })) q (record z { prev = p })) n none a
        ≡ h.node a
  relink-same a e f g = elim (Bool-cases (p == null)) [
    | inl i ↦ elim (Bool-cases (q == null)) [
      | inl j ↦ ground arith
      | inr j ↦ ground (arith, g (λ k. ground arith))
    ]
    | inr i ↦ elim (Bool-cases (q == null)) [
      | inl j ↦ ground (arith, f (λ k. ground arith))
      | inr j ↦ ground (arith, f (λ k. ground arith), g (λ k. ground arith))
    ]
  ]

  delete_run : Leaves (list_delete l n h) tt λ g.
      (g.node n ≡ none)
      × (p ≢ null → g.node p ≡ some (record y { next = q }))
      × (q ≢ null → g.node q ≡ some (record z { prev = p }))
      × (g.list l ≡ some (head_of hd' tl' (dec64 s)))
      × ((a : Ptr) → a ≢ n → (p ≢ null → a ≢ p) → (q ≢ null → a ≢ q) → g.node a ≡ h.node a)
      × ((b : Ptr) → b ≢ l → g.list b ≡ h.list b)
  unfolding list_delete
  delete_run = (
    record {
      node =
          update (relink (relink h.node p (record y { next = q })) q (record z { prev = p })) n
            none;
      list =
          update
            (let m = if n == hd then update h.list l (some (head_of hd' tl s)) else h.list in
              if n == tl then update m l (some (head_of hd' tl' s)) else m)
            l (some (head_of hd' tl' (dec64 s)));
    },
    elim (Bool-cases (p == null)) [
      | inl e ↦ elim (Bool-cases (q == null)) [ inl e' ↦ ground arith | inr e' ↦ ground arith ]
      | inr e ↦ elim (Bool-cases (q == null)) [
        | inl e' ↦ ground arith
        | inr e' ↦ ground (arith, at_p (λ i. ground arith), at_q (λ i. ground arith)) steps 10000000
      ]
    ],
    (
      ground arith,
      λ e. ground arith,
      λ e. ground arith,
      ground arith,
      λ a d e f. relink-same a d e f,
      λ b ne. ground arith,
    ),
  )

module _ (n v : Ptr) (ys : Cells) where
  hd'-first :
      (xs : Cells)
      → has n xs ≡ false
      → (if n == first (xs ++ (n, v) ∷ ys) null
          then first ys null
          else first (xs ++ (n, v) ∷ ys) null)
        ≡ first (xs ++ ys) null
  hd'-first [] out = ground arith
  hd'-first ((a, u) ∷ xs) out = ground arith

  tl'-last :
      (xs : Cells)
      → has n ys ≡ false
      → (if n == last (xs ++ (n, v) ∷ ys) null then last xs null else last (xs ++ (n, v) ∷ ys) null)
        ≡ last (xs ++ ys) null
  tl'-last xs out = rw (last-append xs ((n, v) ∷ ys) null, last-append xs ys null) (go ys out)
    where
      go :
          (zs : Cells)
          → has n zs ≡ false
          → (if n == last zs n then last xs null else last zs n) ≡ last zs (last xs null)
      go [] out = ground arith
      go ((a, u) ∷ zs) out = elim (last-cases zs a) [
        | inl e ↦ ground arith
        | inr i ↦ given (has-ne (last zs a) n zs (ground arith) i) (λ ne. ground arith)
      ]

module _ (h : Heap) (l n v : Ptr) (xs ys : Cells) where
  -- list_delete of a node of the list leaves the other nodes in their order, frees that node, and
  -- changes no other node or list object.
  pub list_delete-append :
      IsList h l (xs ++ (n, v) ∷ ys)
      → length (xs ++ (n, v) ∷ ys) < 2 ^ 64
      → Returns
          (λ _ g. IsList g l (xs ++ ys) × (g.node n ≡ none) × Keeps l (xs ++ (n, v) ∷ ys) h g)
          (list_delete l n h)
  list_delete-append is fits =
      given (Chain-split h.node l null xs ((n, v) ∷ ys) null is.chain)
        λ (front, (n≢0, n∉ys, at_n, back), apart).
          given (Chain-node h.node l null xs n (last xs null) front) λ (y, at_y).
            given (Chain-node h.node l n ys null (first ys null) back) λ (z, at_z).
              let n∉xs = not-has-left xs ys n v apart in
              let apart' = Apart-tail xs ys n v apart in
              leaves
                (delete_run h l n v (last xs null) (first ys null) y z _ _ _ is.ne_null at_n
                  is.holds (λ e. (at_y (last-in xs e)).0) (λ e. (at_z (first-in ys e)).0)
                  (last-ne xs n n∉xs n≢0) (first-ne ys n n∉ys n≢0)
                  (λ e e'.
                    Apart-ne xs ys _ _ apart' (last-in xs e) (first-in ys (λ e''. e (e' ∙ e'')))
                      e'))
                λ g (freed, at_p, at_q, list, nodes, lists). (
                  record {
                    ne_null = is.ne_null;
                    holds =
                        list
                        ∙ head_of-eq (hd'-first n v ys xs n∉xs) (tl'-last n v ys xs n∉ys)
                            (dec_length xs ys (n, v) fits);
                    chain =
                        Chain-append g.node l null xs ys null
                          (Chain-restop h.node l null xs n (first ys null) front
                            (λ a i ne.
                              nodes a (has-ne a n xs n∉xs i) (λ _. ne)
                                (λ e. Apart-ne xs ys a _ apart' i (first-in ys e)))
                            (λ m i e. given (at_y i) λ (e', ne). at_p ne ∙ cc (e, e')))
                          (Chain-restart h.node l n (last xs null) ys null back
                            (λ a i ne.
                              nodes a (has-ne a n ys n∉ys i)
                                (λ e e'. Apart-ne xs ys _ a apart' (last-in xs e) i (sym e'))
                                (λ _. ne))
                            (λ m i e. given (at_z i) λ (e', ne). at_q ne ∙ cc (e, e')))
                          apart';
                  },
                  freed,
                  record {
                    nodes = λ a o. given (not-has-parts a xs ys n v o) λ (o', ne, o'').
                        nodes a ne (λ e e'. has-ne _ a xs o' (last-in xs e) (sym e'))
                          (λ e e'. has-ne _ a ys o'' (first-in ys e) (sym e'));
                    lists = lists;
                  },
                )
