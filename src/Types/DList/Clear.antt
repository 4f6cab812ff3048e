-- ===== src/Types/DList/Clear.antt =====
-- list_clear frees every node and leaves an empty list.
use wyrm_os.Base.{
  ℕ, zero, suc, ◌<◌, ◌≡◌, refl, ◌≢◌, true, false, some, none, [], ◌∷◌, arith, length, ◌∙◌, inl, inr,
  Bool-cases,
}
use wyrm_os.Types.Heap.{Ptr, null, Heap, update, Returns, returns, bind, mono, ◌>>=◌}
use wyrm_os.Types.DList.{clear_loop, list_clear}
use wyrm_os.Types.DList.Chain.{
  Cells, has, mk_node, first, last, Chain, IsList, head_of, not_null, Chain-frame, has-ne,
}

-- what the loop of list_clear does to a list object at `l` and the nodes `xs`
pub record Cleared (l t : Ptr) (s : ℕ) (xs : Cells) (h g : Heap) : Type 0 where
  pub list : g.list l ≡ some (head_of null t s)
  pub freed : (a : Ptr) → has a xs ≡ true → g.node a ≡ none
  pub nodes : (a : Ptr) → has a xs ≡ false → g.node a ≡ h.node a
  pub lists : (b : Ptr) → b ≢ l → g.list b ≡ h.list b

module _ (l t : Ptr) (s : ℕ) where
  abbrev popped : Heap → Ptr → Ptr → Heap
  popped h a q = record {
    node = update h.node a none;
    list = update h.list l (some (head_of q t s));
  }

  clear_step :
      (h : Heap) (k : ℕ) (a q p v : Ptr)
      → a ≢ null
      → h.list l ≡ some (head_of a t s)
      → h.node a ≡ some (mk_node q p v l)
      → clear_loop (suc k) l h ≡ clear_loop k l (popped h a q)
  unfolding clear_loop
  clear_step h k a q p v ne e at_a = rw (e, ◌>>=◌, not_null a ne, at_a, at_a, ◌>>=◌, e, ◌>>=◌)

  clear_loop-Cleared :
      (k : ℕ) (xs : Cells) (h : Heap) (start : Ptr)
      → h.list l ≡ some (head_of (first xs null) t s)
      → Chain h.node l start xs null
      → length xs < k
      → Returns (λ _ g. Cleared l t s xs h g) (clear_loop k l h)
  clear_loop-Cleared zero xs h start e c lt = absurd (omega arith)
  clear_loop-Cleared (suc k) [] h start e c lt =
      unfold clear_loop in
      rw (e, ◌>>=◌)
        (returns (record {
          list = e;
          freed = λ a i. ground arith;
          nodes = λ a o. refl;
          lists = λ b ne. refl;
        }))
  clear_loop-Cleared (suc k) ((a, v) ∷ xs) h start e c lt =
      rw (clear_step h k a (first xs null) start v c.0 e c.2) (
        mono
          (clear_loop-Cleared k xs (popped h a (first xs null)) a (ground arith)
            (Chain-frame h.node l a xs null c.3 (λ b i. ground (arith, has-ne b a xs c.1 i)))
            (omega arith))
          λ u g cl. record {
            list = cl.list;
            freed = λ b i. elim (Bool-cases (has b xs)) [
              | inl j ↦ cl.freed b j
              | inr o ↦ cl.nodes b o ∙ ground arith
            ];
            nodes = λ b o. cl.nodes b (ground arith) ∙ ground arith;
            lists = λ b ne. cl.lists b ne ∙ ground arith;
          })

-- list_clear, given one round more than there are nodes, leaves the list empty, has freed each of
-- its nodes, and leaves every other node and list object alone.
pub list_clear-nil :
    (h : Heap) (l : Ptr) (k : ℕ) (xs : Cells)
    → IsList h l xs
    → length xs < k
    → Returns
        (λ _ g.
          IsList g l []
          × ((a : Ptr) → has a xs ≡ true → g.node a ≡ none)
          × ((a : Ptr) → has a xs ≡ false → g.node a ≡ h.node a)
          × ((b : Ptr) → b ≢ l → g.list b ≡ h.list b))
        (list_clear k l h)
unfolding list_clear
list_clear-nil h l k xs is lt =
    rw (not_null l is.ne_null, ◌>>=◌)
      (bind (clear_loop-Cleared l _ _ k xs h null is.holds is.chain lt) λ u g cl.
        rw (cl.list, ◌>>=◌, at_l g, ◌>>=◌, at_l' g, ◌>>=◌)
          (returns (
            record { ne_null = is.ne_null; holds = ground arith; chain = tt },
            cl.freed,
            cl.nodes,
            λ b ne. ground (arith, cl.lists b ne),
          )))
  where
    at_l :
        (g : Heap)
        → update g.list l (some (head_of null (last xs null) (length xs))) l
          ≡ some (head_of null (last xs null) (length xs))
    at_l g = ground arith

    at_l' :
        (g : Heap)
        → update
            (update g.list l (some (head_of null (last xs null) (length xs))))
            l
            (some (head_of null null (length xs)))
            l
          ≡ some (head_of null null (length xs))
    at_l' g = ground arith
