-- ===== src/Types/DList/Sort.antt =====
-- list_swap and list_sort_cmp of lib/types/list.c. The sort exchanges neighbours, where list_swap
-- is written for nodes that are apart.
use wyrm_os.Base.{
  if◌then◌else◌, not, ℕ, zero, suc, ◌≡◌, refl, ◌≢◌, Bool, true, false, some, none, [], ◌∷◌, arith,
  ◌==◌, length, ◌∙◌, given,
}
use wyrm_os.Types.Heap.{
  Cmd, pure, fault, assert, is_null, load, load_list, set_next, set_prev, set_head, set_tail, ◌>>◌,
  Ptr, null, Node, Heap, update, Leaves, ◌>>=◌,
}
use wyrm_os.Types.DList.{when}
use wyrm_os.Types.DList.Chain.{Cells, has, mk_node, IsList, head_of, not_null, Chain-null}

pub list_swap : Ptr → Ptr → Cmd (Unit {0})
list_swap a b = do
  x ← load a
  y ← load b
  assert (x.owner == y.owner)
  when (not (is_null x.prev)) (set_next x.prev b)
  x ← load a
  when (not (is_null x.next)) (set_prev x.next b)
  y ← load b
  when (not (is_null y.next)) (set_prev y.next a)
  y ← load b
  when (not (is_null y.prev)) (set_next y.prev a)
  x ← load a
  y ← load b
  set_next a y.next
  set_next b x.next
  x ← load a
  y ← load b
  set_prev a y.prev
  set_prev b x.prev
  x ← load a
  y ← load b
  if is_null x.next then set_tail x.owner a else when (is_null y.next) (set_tail y.owner b)
  if is_null x.prev then set_head x.owner a else when (is_null y.prev) (set_head y.owner b)

-- The inner loop of `list_sort_cmp`; `gt x y` tells whether `cmp(x, y) > 0`.
pub sort_inner : (gt : Ptr → Ptr → Bool) → ℕ → Ptr → Cmd (Unit {0})
unfolding list_swap
sort_inner gt zero b = fault
sort_inner gt (suc k) b = do
  x ← load b
  if is_null x.prev then pure tt else do
    y ← load x.prev
    if gt y.value x.value
        then (do list_swap x.prev b; z ← load b; sort_inner gt k z.prev)
        else pure tt

pub sort_outer : (gt : Ptr → Ptr → Bool) → ℕ → Ptr → Cmd (Unit {0})
sort_outer gt zero a = fault
sort_outer gt (suc k) a =
    if is_null a then pure tt else do sort_inner gt k a; x ← load a; sort_outer gt k x.next

pub list_sort_cmp : (gt : Ptr → Ptr → Bool) → ℕ → Ptr → Cmd (Unit {0})
unfolding sort_inner sort_outer
list_sort_cmp gt k l = do
  x ← load_list l
  if x.size == 0 then pure tt else do n ← load x.head; sort_outer gt k n.next

module _ (h : Heap) (l a b u w : Ptr) (t : Ptr) (s : ℕ) (a≢0 : a ≢ null) (b≢0 : b ≢ null)
    (a≢b : a ≢ b) (at_a : h.node a ≡ some (mk_node b null u l))
    (at_l : h.list l ≡ some (head_of a t s)) where
  swap_front_last :
      h.node b ≡ some (mk_node null a w l)
      → Leaves (list_swap a b h) tt λ g.
        (g.node a ≡ some (mk_node a b u l))
        × (g.node b ≡ some (mk_node b null w l))
        × ((c : Ptr) → c ≢ a → c ≢ b → g.node c ≡ h.node c)
  unfolding list_swap
  swap_front_last at_b = (
    record {
      node =
          update
            (update
              (update
                (update
                  (update (update h.node b (some (mk_node null b w l))) b (some (mk_node a b w l)))
                  a (some (mk_node a null u l)))
                b (some (mk_node b b w l)))
              a (some (mk_node a b u l)))
            b (some (mk_node b null w l));
      list = update h.list l (some (head_of b t s));
    },
    ground arith,
    (ground arith, ground arith, λ c d e. ground arith),
  )

  swap_front :
      (c : Ptr) (z : Node)
      → h.node b ≡ some (mk_node c a w l)
      → h.node c ≡ some z
      → c ≢ null
      → c ≢ a
      → c ≢ b
      → Leaves (list_swap a b h) tt λ g.
        (g.node a ≡ some (mk_node a b u l))
        × (g.node b ≡ some (mk_node b null w l))
        × ((d : Ptr) → d ≢ a → d ≢ b → d ≢ c → g.node d ≡ h.node d)
  unfolding list_swap
  swap_front c z at_b at_c c≢0 c≢a c≢b = (
    record {
      node =
          update
            (update
              (update
                (update
                  (update
                    (update (update h.node b (some (mk_node c b w l))) c
                      (some (record z { prev = a })))
                    b (some (mk_node a b w l)))
                  a (some (mk_node a null u l)))
                b (some (mk_node b b w l)))
              a (some (mk_node a b u l)))
            b (some (mk_node b null w l));
      list = update h.list l (some (head_of b t s));
    },
    ground arith,
    (ground arith, ground arith, λ d e f i. ground arith),
  )

ne_zero : (n : ℕ) → (suc (suc n) == 0) ≡ false
ne_zero n = ground arith

module _ (h : Heap) (l a b u w : Ptr) where
  -- Exchanging the first two nodes of a list makes each of them its own successor, so that a walk
  -- along the list no longer ends.
  pub list_swap-cycle :
      (xs : Cells)
      → IsList h l ((a, u) ∷ (b, w) ∷ xs)
      → Leaves (list_swap a b h) tt λ g.
        (g.node a ≡ some (mk_node a b u l))
        × (g.node b ≡ some (mk_node b null w l))
        × ((d : Ptr) → has d ((a, u) ∷ (b, w) ∷ xs) ≡ false → g.node d ≡ h.node d)
  list_swap-cycle [] is =
      let (a≢0, out, at_a, (b≢0, _, at_b, _)) = is.chain in
      let (g, run, (p, q, r)) =
        swap_front_last h l a b u w _ _ a≢0 b≢0 (λ e. ground arith) at_a is.holds at_b in
      (g, run, (p, q, λ d o. r d (λ e. ground arith) (λ e. ground arith)))
  list_swap-cycle ((c, z) ∷ xs) is =
      let (a≢0, out, at_a, (b≢0, out', at_b, (c≢0, out'', at_c, _))) = is.chain in
      let (g, run, (p, q, r)) =
        swap_front h l a b u w _ _ a≢0 b≢0 (λ e. ground arith) at_a is.holds c _ at_b at_c c≢0
          (λ e. ground arith) (λ e. ground arith) in
      (g, run, (p, q, λ d o. r d (λ e. ground arith) (λ e. ground arith) (λ e. ground arith)))

  sort_inner-none :
      (gt : Ptr → Ptr → Bool) (k : ℕ) (xs : Cells)
      → IsList h l ((a, u) ∷ (b, w) ∷ xs)
      → gt u w ≡ true
      → h.node null ≡ none
      → sort_inner gt k b h ≡ none
  unfolding sort_inner
  sort_inner-none gt zero xs is out none_at = refl
  sort_inner-none gt (suc k) xs is out none_at =
      let (a≢0, o, at_a, (b≢0, o', at_b, _)) = is.chain in
      given (list_swap-cycle xs is) λ (g, run, (p, q, r)).
        rw (at_b, ◌>>=◌, not_null a a≢0, at_a, ◌>>=◌, out, run, ◌>>=◌, q, ◌>>=◌)
          (go k g
            (r null (Chain-null h.node l null ((a, u) ∷ (b, w) ∷ xs) null is.chain) ∙ none_at))
    where
      go : (k : ℕ) (g : Heap) → g.node null ≡ none → sort_inner gt k null g ≡ none
      go zero g e = refl
      go (suc k) g e = rw (e, ◌>>=◌)

  -- list_sort_cmp of a list whose first two nodes are out of order never completes, however many
  -- rounds it is given: it follows NULL.
  pub list_sort_cmp-none :
      (gt : Ptr → Ptr → Bool) (k : ℕ) (xs : Cells)
      → IsList h l ((a, u) ∷ (b, w) ∷ xs)
      → gt u w ≡ true
      → h.node null ≡ none
      → list_sort_cmp gt k l h ≡ none
  unfolding list_sort_cmp
  list_sort_cmp-none gt k xs is out none_at =
      let (a≢0, o, at_a, (b≢0, o', at_b, _)) = is.chain in
      rw (is.holds, ◌>>=◌, ne_zero (length xs), at_a, ◌>>=◌) (go k)
    where
      go : (k : ℕ) → sort_outer gt k b h ≡ none
      go zero = refl
      go (suc k) = rw (not_null b is.chain.3.0, sort_inner-none gt k xs is out none_at, ◌>>=◌)
