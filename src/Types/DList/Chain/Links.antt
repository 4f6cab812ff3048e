-- ===== src/Types/DList/Chain/Links.antt =====
-- How a chain of nodes is cut, joined and relinked.
use wyrm_os.Base.{
  ◌≡◌, refl, ◌≢◌, true, false, Option, some, [], ◌∷◌, ◌++◌, arith, ◌==◌, Bool-cases, given, inl,
  inr,
}
use wyrm_os.Types.Heap.{Ptr, null, Node}
use wyrm_os.Types.DList.Chain.Defs.{
  Cells, has, mk_node, first, last, Chain, has-append, first-append,
}

module _ (h : Ptr → Option Node) (o : Ptr) where
  -- a chain survives any change that spares its own nodes
  pub Chain-frame :
      {g : Ptr → Option Node} (start : Ptr) (xs : Cells) (stop : Ptr)
      → Chain h o start xs stop
      → ((a : Ptr) → has a xs ≡ true → g a ≡ h a)
      → Chain g o start xs stop
  Chain-frame start [] stop c same = tt
  Chain-frame start ((a, v) ∷ xs) stop c same =
      (c.0, c.1, ground (arith, same a), Chain-frame a xs stop c.3 (λ b i. same b (ground arith)))

  -- the last node of a chain
  pub Chain-last :
      (start a v : Ptr) (xs : Cells) (stop : Ptr)
      → Chain h o start ((a, v) ∷ xs) stop
      → (p : Ptr) × (w : Ptr) × (h (last xs a) ≡ some (mk_node stop p w o))
        × (last xs a ≢ null)
        × (has (last xs a) ((a, v) ∷ xs) ≡ true)
  Chain-last start a v [] stop c = (start, v, c.2, c.0, ground arith)
  Chain-last start a v ((b, w) ∷ xs) stop c =
      let (p, u, e, ne, i) = Chain-last a b w xs stop c.3 in (p, u, e, ne, ground arith)

  -- a chain whose last node is pointed elsewhere
  pub Chain-restop :
      {g : Ptr → Option Node} (start : Ptr) (xs : Cells) (stop stop' : Ptr)
      → Chain h o start xs stop
      → ((a : Ptr) → has a xs ≡ true → a ≢ last xs start → g a ≡ h a)
      → ((n : Node)
          → has (last xs start) xs ≡ true
          → h (last xs start) ≡ some n
          → g (last xs start) ≡ some (record n { next = stop' }))
      → Chain g o start xs stop'
  Chain-restop start [] stop stop' c same ends = tt
  Chain-restop start ((a, v) ∷ []) stop stop' c same ends =
      (c.0, refl, ends _ (ground arith) c.2, tt)
  Chain-restop start ((a, v) ∷ (b, w) ∷ xs) stop stop' c same ends =
      let (p, u, e, ne, i) = Chain-last a b w xs stop c.3 in
      (
        c.0,
        c.1,
        ground (arith, same a),
        Chain-restop a ((b, w) ∷ xs) stop stop' c.3 (λ d j. same d (ground arith))
            (λ m j. ends m (ground arith)),
      )

  -- a chain whose first node is given another predecessor
  pub Chain-restart :
      {g : Ptr → Option Node} (start start' : Ptr) (xs : Cells) (stop : Ptr)
      → Chain h o start xs stop
      → ((a : Ptr) → has a xs ≡ true → a ≢ first xs stop → g a ≡ h a)
      → ((n : Node)
          → has (first xs stop) xs ≡ true
          → h (first xs stop) ≡ some n
          → g (first xs stop) ≡ some (record n { prev = start' }))
      → Chain g o start' xs stop
  Chain-restart start start' [] stop c same begins = tt
  Chain-restart start start' ((a, v) ∷ xs) stop c same begins = (
    c.0,
    c.1,
    begins _ (ground arith) c.2,
    Chain-frame a xs stop c.3 (λ b i. same b (ground arith) (λ e. ground arith)),
  )

  pub Chain-append :
      (start : Ptr) (xs ys : Cells) (stop : Ptr)
      → Chain h o start xs (first ys stop)
      → Chain h o (last xs start) ys stop
      → ((a : Ptr) → has a xs ≡ true → has a ys ≡ false)
      → Chain h o start (xs ++ ys) stop
  Chain-append start [] ys stop c d apart = d
  Chain-append start ((a, v) ∷ xs) ys stop c d apart = (
    c.0,
    ground (arith, has-append a xs ys, apart a),
    ground (arith, first-append xs ys stop),
    Chain-append a xs ys stop c.3 d (λ b i. apart b (ground arith)),
  )

  pub Chain-split :
      (start : Ptr) (xs ys : Cells) (stop : Ptr)
      → Chain h o start (xs ++ ys) stop
      → Chain h o start xs (first ys stop)
        × Chain h o (last xs start) ys stop
        × ((a : Ptr) → has a xs ≡ true → has a ys ≡ false)
  Chain-split start [] ys stop c = (tt, c, λ a i. ground arith)
  Chain-split start ((a, v) ∷ xs) ys stop c =
      let (l, r, apart) = Chain-split a xs ys stop c.3 in
      (
        (c.0, ground (arith, has-append a xs ys), ground (arith, first-append xs ys stop), l),
        r,
        λ b i. ground (arith, apart b, has-append a xs ys),
      )

  pub Chain-null :
      (start : Ptr) (xs : Cells) (stop : Ptr) → Chain h o start xs stop → has null xs ≡ false
  Chain-null start [] stop c = refl
  Chain-null start ((a, v) ∷ xs) stop c = given c.0 λ ne. ground (arith, Chain-null a xs stop c.3)

  -- the node at either end, where there is one
  pub Chain-node :
      (start : Ptr) (xs : Cells) (stop a : Ptr)
      → Chain h o start xs stop
      → (y : Node) × (has a xs ≡ true → (h a ≡ some y) × (a ≢ null))
  Chain-node start [] stop a c = (mk_node 0 0 0 0, λ i. ground arith)
  Chain-node start ((b, v) ∷ xs) stop a c =
      let (y, rest) = Chain-node b xs stop a c.3 in
      elim (Bool-cases (a == b)) [
        | inl e ↦ (mk_node (first xs stop) start v o, λ i. ground arith)
        | inr ne ↦ (y, λ i. rest (ground arith))
      ]
