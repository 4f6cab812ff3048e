-- ===== src/Types/DList/InsertAt/After.antt =====
-- list_insert_after: the list that it leaves.
use wyrm_os.Base.{
  ◌+◌, ◌<◌, ◌^◌, ◌≡◌, refl, ◌≢◌, false, [], ◌∷◌, ◌++◌, arith, length, ◌∙◌, sym, given,
}
use wyrm_os.Types.Heap.{Ptr, null, Heap, Returns, leaves}
use wyrm_os.Types.DList.{list_insert_after}
use wyrm_os.Types.DList.InsertAt.{
  insert_after_run_last, insert_after_run, length-insert, Apart-insert, ends_of, outside,
}
use wyrm_os.Types.DList.Chain.{
  Cells, has, last, IsList, Keeps, has-ne, last-append, Chain-frame, Chain-restart, Chain-append,
  Chain-split, head_of-eq, not-has-parts, Apart-ne, not-has-left, Apart-tail,
}

module _ (h : Heap) (l n v r owner d : Ptr) (r≢0 : r ≢ null) where
  abbrev Inserted : Cells → Cells → Ptr → Heap → Type 0
  Inserted before after a g = (a ≡ r) × IsList g l after × Keeps l ((r, d) ∷ before) h g

  -- list_insert_after links a new node with value `d` behind the node `n` of the list, and changes
  -- no node or list object outside of it; its result is the new node.
  pub list_insert_after-append :
      (xs ys : Cells)
      → IsList h l (xs ++ (n, v) ∷ ys)
      → has r (xs ++ (n, v) ∷ ys) ≡ false
      → length (xs ++ (n, v) ∷ ys) + 1 < 2 ^ 64
      → Returns
          (Inserted (xs ++ (n, v) ∷ ys) (xs ++ (n, v) ∷ (r, d) ∷ ys))
          (list_insert_after r owner l n d h)
  list_insert_after-append xs [] is new fits =
      given (Chain-split h.node l null xs ((n, v) ∷ []) null is.chain)
        λ (front, (n≢0, n∉ys, at_n, back), apart).
          given (not-has-parts r xs [] n v new) λ (r∉xs, r≢n, r∉ys).
            let n∉xs = not-has-left xs [] n v apart in
            leaves
              (insert_after_run_last h l n v (last xs null) null r d owner _ _ _ n≢0 r≢0 r≢n at_n
                is.holds refl (last-append xs ((n, v) ∷ []) null))
              λ g (at_n', at_r, list, nodes, lists). (
                refl,
                record {
                  ne_null = is.ne_null;
                  holds =
                      list
                      ∙ head_of-eq (ends_of xs ((n, v) ∷ []) ((n, v) ∷ (r, d) ∷ []) null refl)
                          (sym (last-append xs ((n, v) ∷ (r, d) ∷ []) null))
                          (length-insert xs [] (n, v) (r, d) fits);
                  chain =
                      Chain-append g.node l null xs ((n, v) ∷ (r, d) ∷ []) null
                        (Chain-frame h.node l null xs n front
                          (λ a i. nodes a (has-ne a n xs n∉xs i) (has-ne a r xs r∉xs i)))
                        (n≢0, ground arith, at_n', (r≢0, refl, at_r, tt))
                        (Apart-insert xs [] n v r d r∉xs apart).0;
                },
                record {
                  nodes = λ a o. given (outside a xs [] n v r d o) λ (e, _, f, _). nodes a f e;
                  lists = lists;
                },
              )
  list_insert_after-append xs ((e, u) ∷ ys) is new fits =
      given (Chain-split h.node l null xs ((n, v) ∷ (e, u) ∷ ys) null is.chain)
        λ (front, (n≢0, n∉ys, at_n, back), apart).
          given (not-has-parts r xs ((e, u) ∷ ys) n v new) λ (r∉xs, r≢n, r∉ys).
            let n∉xs = not-has-left xs ((e, u) ∷ ys) n v apart in
            let apart' = Apart-tail xs ((e, u) ∷ ys) n v apart in
            leaves
              (insert_after_run h l n v (last xs null) e r d owner _ _ _ n≢0 r≢0 r≢n at_n is.holds e
                _ back.0 (has-ne e n ((e, u) ∷ ys) n∉ys (ground arith))
                (has-ne e r ((e, u) ∷ ys) r∉ys (ground arith)) back.2 refl)
              λ g (at_n', at_r, at_e, list, nodes, lists). (
                refl,
                record {
                  ne_null = is.ne_null;
                  holds =
                      list
                      ∙ head_of-eq
                          (ends_of xs ((n, v) ∷ (e, u) ∷ ys) ((n, v) ∷ (r, d) ∷ (e, u) ∷ ys) null
                            refl)
                          (last-append xs ((n, v) ∷ (e, u) ∷ ys) null
                            ∙ sym (last-append xs ((n, v) ∷ (r, d) ∷ (e, u) ∷ ys) null))
                          (length-insert xs ((e, u) ∷ ys) (n, v) (r, d) fits);
                  chain =
                      Chain-append g.node l null xs ((n, v) ∷ (r, d) ∷ (e, u) ∷ ys) null
                        (Chain-frame h.node l null xs n front (λ a i.
                          nodes a (has-ne a n xs n∉xs i) (has-ne a r xs r∉xs i)
                            (Apart-ne xs ((e, u) ∷ ys) a e apart' i (ground arith))))
                        (
                          n≢0,
                          ground arith,
                          at_n',
                          (
                            r≢0,
                            r∉ys,
                            at_r,
                            Chain-restart h.node l n r ((e, u) ∷ ys) null back
                                (λ a i ne.
                                  nodes a (has-ne a n ((e, u) ∷ ys) n∉ys i)
                                    (has-ne a r ((e, u) ∷ ys) r∉ys i) ne)
                                (λ m i e'. at_e ∙ cc (e', back.2)),
                          ),
                        )
                        (Apart-insert xs ((e, u) ∷ ys) n v r d r∉xs apart).0;
                },
                record {
                  nodes = λ a o. given (outside a xs ((e, u) ∷ ys) n v r d o) λ (i, _, f, j).
                      nodes a f i (λ k. has-ne e a ((e, u) ∷ ys) j (ground arith) (sym k));
                  lists = lists;
                },
              )
