-- ===== src/Types/DList/InsertAt/Before.antt =====
-- list_insert_before: the list that it leaves.
use wyrm_os.Base.{
  ◌+◌, ◌<◌, ◌^◌, ◌≡◌, refl, ◌≢◌, false, [], ◌∷◌, ◌++◌, arith, length, ◌∙◌, sym, given,
}
use wyrm_os.Types.Heap.{Ptr, null, Heap, Returns, leaves}
use wyrm_os.Types.DList.{list_insert_before}
use wyrm_os.Types.DList.InsertAt.{
  insert_before_run_first, insert_before_run, length-insert_front, Apart-insert, outside,
}
use wyrm_os.Types.DList.Chain.{
  Cells, has, first, last, IsList, Keeps, has-ne, has-cons_ne, last-append, Chain-frame,
  Chain-restop, Chain-append, Chain-split, Chain-last, head_of-eq, not-has-parts, Apart-ne,
  not-has-left, Apart-tail,
}

module _ (h : Heap) (l n v r owner d : Ptr) (r≢0 : r ≢ null) where
  abbrev Inserted : Cells → Cells → Ptr → Heap → Type 0
  Inserted before after a g = (a ≡ r) × IsList g l after × Keeps l ((r, d) ∷ before) h g

  -- list_insert_before links a new node with value `d` in front of the node `n` of the list, and
  -- changes no node or list object outside of it; its result is the new node.
  pub list_insert_before-append :
      (xs ys : Cells)
      → IsList h l (xs ++ (n, v) ∷ ys)
      → has r (xs ++ (n, v) ∷ ys) ≡ false
      → length (xs ++ (n, v) ∷ ys) + 1 < 2 ^ 64
      → Returns
          (Inserted (xs ++ (n, v) ∷ ys) (xs ++ (r, d) ∷ (n, v) ∷ ys))
          (list_insert_before r owner l n d h)
  list_insert_before-append [] ys is new fits = given is.chain λ (n≢0, n∉ys, at_n, back).
      given (not-has-parts r [] ys n v new) λ (_, r≢n, r∉ys).
        leaves
          (insert_before_run_first h l n v null (first ys null) r d owner _ _ _ n≢0 r≢0 r≢n at_n
            is.holds refl refl)
          λ g (at_n', at_r, list, nodes, lists). (
            refl,
            record {
              ne_null = is.ne_null;
              holds = list ∙ head_of-eq refl refl (length-insert_front [] ys (n, v) (r, d) fits);
              chain = (
                r≢0,
                ground arith,
                at_r,
                (
                  n≢0,
                  n∉ys,
                  at_n',
                  Chain-frame h.node l n ys null back
                      (λ a i. nodes a (has-ne a n ys n∉ys i) (has-ne a r ys r∉ys i)),
                ),
              );
            },
            record {
              nodes = λ a o. given (outside a [] ys n v r d o) λ (e, _, f, _). nodes a f e;
              lists = lists;
            },
          )
  list_insert_before-append ((b, u) ∷ xs) ys is new fits =
      given (Chain-split h.node l null ((b, u) ∷ xs) ((n, v) ∷ ys) null is.chain)
        λ (front, (n≢0, n∉ys, at_n, back), apart).
          given (not-has-parts r ((b, u) ∷ xs) ys n v new) λ (r∉xs, r≢n, r∉ys).
            given (Chain-last h.node l null b u xs n front) λ (p, w, at_e, e≢0, i).
              let n∉xs = not-has-left ((b, u) ∷ xs) ys n v apart in
              let apart' = Apart-tail ((b, u) ∷ xs) ys n v apart in
              leaves
                (insert_before_run h l n v (last xs b) (first ys null) r d owner _ _ _ n≢0 r≢0 r≢n
                  at_n is.holds (last xs b) _ e≢0 (has-ne _ n ((b, u) ∷ xs) n∉xs i)
                  (has-ne _ r ((b, u) ∷ xs) r∉xs i) at_e refl)
                λ g (at_n', at_r, at_e', list, nodes, lists). (
                  refl,
                  record {
                    ne_null = is.ne_null;
                    holds =
                        list
                        ∙ head_of-eq refl
                            (last-append xs ((n, v) ∷ ys) b
                              ∙ sym (last-append xs ((r, d) ∷ (n, v) ∷ ys) b))
                            (length-insert_front ((b, u) ∷ xs) ys (n, v) (r, d) fits);
                    chain =
                        Chain-append g.node l null ((b, u) ∷ xs) ((r, d) ∷ (n, v) ∷ ys) null
                          (Chain-restop h.node l null ((b, u) ∷ xs) n r front
                            (λ a j ne.
                              nodes a (has-ne a n ((b, u) ∷ xs) n∉xs j)
                                (has-ne a r ((b, u) ∷ xs) r∉xs j) ne)
                            (λ m j e. at_e' ∙ cc (e, at_e)))
                          (
                            r≢0,
                            has-cons_ne r n v ys r≢n r∉ys,
                            at_r,
                            (
                              n≢0,
                              n∉ys,
                              at_n',
                              Chain-frame h.node l n ys null back (λ a j.
                                  nodes a (has-ne a n ys n∉ys j) (has-ne a r ys r∉ys j)
                                    (λ k. Apart-ne ((b, u) ∷ xs) ys _ a apart' i j (sym k))),
                            ),
                          )
                          (Apart-insert ((b, u) ∷ xs) ys n v r d r∉xs apart).1;
                  },
                  record {
                    nodes = λ a o.
                        given (outside a ((b, u) ∷ xs) ys n v r d o)
                          λ (j, o', f, _). nodes a f j (λ k. has-ne _ a ((b, u) ∷ xs) o' i (sym k));
                    lists = lists;
                  },
                )
