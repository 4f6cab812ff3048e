-- ===== src/Types/DList/Pop.antt =====
-- list_pop_back and list_pop_front take one node off an end and clear its links.
use wyrm_os.Base.{
  ℕ, suc, ◌<◌, ◌^◌, ◌≡◌, refl, ◌≢◌, some, [], ◌∷◌, ◌++◌, arith, length, length-append, ◌∙◌, sym,
  given, dec64,
}
use wyrm_os.Types.Heap.{Ptr, null, Node, Head, Heap, update, Returns, Leaves, leaves}
use wyrm_os.Types.DList.{list_pop_back, list_pop_front}
use wyrm_os.Types.DList.Chain.{
  Cells, mk_node, last, IsList, head_of, Keeps, has-ne, last-append, Chain-last, Chain-restop,
  Chain-restart, Chain-split, not-has-left, last-ne, head_of-eq, not-has-parts,
}

module _ (h : Heap) (l n v : Ptr) (s : ℕ) (l≢0 : l ≢ null) (n≢0 : n ≢ null) where
  module _ (at_n : h.node n ≡ some (mk_node null null v l))
      (at_l : h.list l ≡ some (head_of n n s)) where
    abbrev Emptied : Heap → Type 0
    Emptied g =
        (g.node n ≡ some (mk_node null null v null))
        × (g.list l ≡ some (head_of null null (dec64 s)))
        × ((a : Ptr) → a ≢ n → g.node a ≡ h.node a)
        × ((b : Ptr) → b ≢ l → g.list b ≡ h.list b)

    pop_back_run_one : Leaves (list_pop_back l h) n Emptied
    unfolding list_pop_back
    pop_back_run_one = (
      record {
        node =
            update
              (update (update h.node n (some (mk_node null null v l))) n
                (some (mk_node null null v l)))
              n (some (mk_node null null v null));
        list =
            update
              (update
                (update (update h.list l (some (head_of n null s))) l (some (head_of null null s)))
                l (some (head_of null null s)))
              l (some (head_of null null (dec64 s)));
      },
      ground arith,
      (ground arith, ground arith, λ a ne. ground arith, λ b ne. ground arith),
    )

    pop_front_run_one : Leaves (list_pop_front l h) n Emptied
    unfolding list_pop_front
    pop_front_run_one = (
      record {
        node =
            update
              (update (update h.node n (some (mk_node null null v l))) n
                (some (mk_node null null v l)))
              n (some (mk_node null null v null));
        list =
            update
              (update (update h.list l (some (head_of null n s))) l (some (head_of null null s))) l
              (some (head_of null null (dec64 s)));
      },
      ground arith,
      (ground arith, ground arith, λ a ne. ground arith, λ b ne. ground arith),
    )

  module _ (p e : Ptr) (y : Node) (p≢0 : p ≢ null) (p≢n : p ≢ n) (e≢n : e ≢ n)
      (at_p : h.node p ≡ some y) where
    abbrev Unlinked : Head → Node → Heap → Type 0
    Unlinked hd y' g =
        (g.node n ≡ some (mk_node null null v null))
        × (g.node p ≡ some y')
        × (g.list l ≡ some hd)
        × ((a : Ptr) → a ≢ n → a ≢ p → g.node a ≡ h.node a)
        × ((b : Ptr) → b ≢ l → g.list b ≡ h.list b)

    pop_back_run :
        h.node n ≡ some (mk_node null p v l)
        → h.list l ≡ some (head_of e n s)
        → Leaves (list_pop_back l h) n (Unlinked (head_of e p (dec64 s)) (record y { next = null }))
    unfolding list_pop_back
    pop_back_run at_n at_l = (
      record {
        node =
            update
              (update
                (update (update h.node p (some (record y { next = null }))) n
                  (some (mk_node null p v l)))
                n (some (mk_node null null v l)))
              n (some (mk_node null null v null));
        list = update (update h.list l (some (head_of e p s))) l (some (head_of e p (dec64 s)));
      },
      ground arith,
      (ground arith, ground arith, ground arith, λ a d f. ground arith, λ b ne. ground arith),
    )

    pop_front_run :
        h.node n ≡ some (mk_node p null v l)
        → h.list l ≡ some (head_of n e s)
        → Leaves
            (list_pop_front l h)
            n
            (Unlinked (head_of p e (dec64 s)) (record y { prev = null }))
    unfolding list_pop_front
    pop_front_run at_n at_l = (
      record {
        node =
            update
              (update
                (update (update h.node p (some (record y { prev = null }))) n
                  (some (mk_node null null v l)))
                n (some (mk_node null null v l)))
              n (some (mk_node null null v null));
        list = update (update h.list l (some (head_of p e s))) l (some (head_of p e (dec64 s)));
      },
      ground arith,
      (ground arith, ground arith, ground arith, λ a d f. ground arith, λ b ne. ground arith),
    )

-- what a pop of node `n` with value `v` from the list `xs` with `n` leaves behind
abbrev pub Popped : Heap → Ptr → Ptr → Ptr → Cells → Cells → Ptr → Heap → Type 0
Popped h l n v before after r g =
    (r ≡ n) × (g.node n ≡ some (mk_node null null v null)) × IsList g l after × Keeps l before h g

module _ (h : Heap) (l : Ptr) where
  -- On an empty list both pops return NULL and change nothing.
  pub list_pop-nil :
      IsList h l [] → (list_pop_back l h ≡ some (null, h)) × (list_pop_front l h ≡ some (null, h))
  unfolding list_pop_back list_pop_front
  list_pop-nil is = given is.ne_null λ ne. given is.holds λ e. (ground arith, ground arith)

  -- list_pop_front returns the first node, its links cleared, and leaves the rest as it was.
  pub list_pop_front-cons :
      (n v : Ptr) (xs : Cells)
      → IsList h l ((n, v) ∷ xs)
      → suc (length xs) < 2 ^ 64
      → Returns (Popped h l n v ((n, v) ∷ xs) xs) (list_pop_front l h)
  list_pop_front-cons n v [] is fits =
      leaves (pop_front_run_one h l n v 1 is.ne_null is.chain.0 is.chain.2 is.holds)
        λ g (at_n, list, nodes, lists). (
          refl,
          at_n,
          record { ne_null = is.ne_null; holds = list; chain = tt },
          record { nodes = λ a o. nodes a (ground arith); lists = lists },
        )
  list_pop_front-cons n v ((p, w) ∷ xs) is fits = given is.chain λ (n≢0, out, at_n, rest).
      leaves
        (pop_front_run h l n v _ is.ne_null n≢0 p (last xs p) _ rest.0 (ground arith)
          (last-ne ((p, w) ∷ xs) n out n≢0) rest.2 at_n is.holds)
        λ g (at_n', at_p, list, nodes, lists). (
          refl,
          at_n',
          record {
            ne_null = is.ne_null;
            holds = list ∙ head_of-eq refl refl (omega arith);
            chain =
                Chain-restart h.node l n null ((p, w) ∷ xs) null rest
                  (λ a i ne. nodes a (has-ne a n ((p, w) ∷ xs) out i) ne)
                  (λ m i e. at_p ∙ cc (e, rest.2));
          },
          record { nodes = λ a o. nodes a (ground arith) (ground arith); lists = lists },
        )

  -- list_pop_back returns the last node, its links cleared, and leaves the rest as it was.
  pub list_pop_back-append :
      (n v : Ptr) (xs : Cells)
      → IsList h l (xs ++ (n, v) ∷ [])
      → suc (length xs) < 2 ^ 64
      → Returns (Popped h l n v (xs ++ (n, v) ∷ []) xs) (list_pop_back l h)
  list_pop_back-append n v [] is fits =
      leaves (pop_back_run_one h l n v 1 is.ne_null is.chain.0 is.chain.2 is.holds)
        λ g (at_n, list, nodes, lists). (
          refl,
          at_n,
          record { ne_null = is.ne_null; holds = list; chain = tt },
          record { nodes = λ a o. nodes a (ground arith); lists = lists },
        )
  list_pop_back-append n v ((a, u) ∷ xs) is fits =
      given (Chain-split h.node l null ((a, u) ∷ xs) ((n, v) ∷ []) null is.chain)
        λ (front, (n≢0, n∉, at_n, back), apart).
          given (Chain-last h.node l null a u xs n front) λ (p, w, at_p, p≢0, i).
            let n∉xs = not-has-left ((a, u) ∷ xs) [] n v apart in
            leaves
              (pop_back_run h l n v _ is.ne_null n≢0 (last xs a) a _ p≢0
                (has-ne _ n ((a, u) ∷ xs) n∉xs i) (has-ne a n ((a, u) ∷ xs) n∉xs (ground arith))
                at_p at_n (is.holds ∙ head_of-eq refl (last-append xs ((n, v) ∷ []) a) refl))
              λ g (at_n', at_p', list, nodes, lists). (
                refl,
                at_n',
                record {
                  ne_null = is.ne_null;
                  holds =
                      list ∙ head_of-eq refl refl (omega (arith, length-append xs ((n, v) ∷ [])));
                  chain =
                      Chain-restop h.node l null ((a, u) ∷ xs) n null front
                        (λ b j ne. nodes b (has-ne b n ((a, u) ∷ xs) n∉xs j) ne)
                        (λ m j e. at_p' ∙ cc (e, at_p));
                },
                record {
                  nodes = λ b o.
                      given (not-has-parts b ((a, u) ∷ xs) [] n v o)
                        λ (o', ne, _). nodes b ne (λ e. has-ne _ b ((a, u) ∷ xs) o' i (sym e));
                  lists = lists;
                },
              )
