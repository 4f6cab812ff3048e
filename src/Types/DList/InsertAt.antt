-- ===== src/Types/DList/InsertAt.antt =====
-- list_insert_after and list_insert_before, run: the writes that they make. The lists that they
-- leave are in InsertAt/After and InsertAt/Before.
pub mod After
pub mod Before
use wyrm_os.Base.{
  ℕ, suc, ◌+◌, ◌<◌, ◌^◌, ◌≡◌, refl, ◌≢◌, true, false, some, none, List, [], ◌∷◌, ◌++◌, arith, ◌==◌,
  length, length-append, Option, ◌∙◌, sym, given, inl, inr, inc64, if◌then◌else◌, Bool-cases,
}
use wyrm_os.Types.Heap.{Ptr, null, Node, Heap, update, Returns, Leaves, leaves}
use wyrm_os.Types.DList.{list_create_node, list_insert_after, list_insert_before}
use wyrm_os.Types.DList.Chain.{
  Cells, has, mk_node, first, last, Chain, IsList, has-append, head_of, Keeps, has-ne, not_null,
  last-append, first-append, Chain-frame, Chain-restop, Chain-restart, Chain-append, Chain-split,
  Chain-node, head_of-eq, not-has-parts, last-in, first-in, last-ne, first-ne, Apart, Apart-ne,
  not-has-left, Apart-tail, last-cases, first-cases,
}

module _ (h : Heap) (l n v p q r d : Ptr) (owner hd tl : Ptr) (s : ℕ) (n≢0 : n ≢ null)
    (r≢0 : r ≢ null) (r≢n : r ≢ n) (at_n : h.node n ≡ some (mk_node q p v l))
    (at_l : h.list l ≡ some (head_of hd tl s)) where
  -- the heap once the new node `r` is filled in with `nx` and `pv`
  abbrev filled : Ptr → Ptr → Ptr → Ptr → Ptr → Option Node
  filled nx pv nx' pv' =
      update
        (update
          (update (update h.node r (some (mk_node null null d owner))) r
            (some (mk_node null null d l)))
          r (some (mk_node nx pv d l)))
        r (some (mk_node nx' pv' d l))

  pub insert_after_run_last :
      q ≡ null
      → tl ≡ n
      → Leaves (list_insert_after r owner l n d h) r λ g.
        (g.node n ≡ some (mk_node r p v l))
        × (g.node r ≡ some (mk_node null n d l))
        × (g.list l ≡ some (head_of hd r (inc64 s)))
        × ((a : Ptr) → a ≢ n → a ≢ r → g.node a ≡ h.node a)
        × ((b : Ptr) → b ≢ l → g.list b ≡ h.list b)
  unfolding list_insert_after list_create_node
  insert_after_run_last q≡0 tl≡n = (
    record {
      node = update (filled null n null n) n (some (mk_node r p v l));
      list = update (update h.list l (some (head_of hd r s))) l (some (head_of hd r (inc64 s)));
    },
    ground arith,
    (ground arith, ground arith, ground arith, λ a e f. ground arith, λ b ne. ground arith),
  )

  pub insert_before_run_first :
      p ≡ null
      → hd ≡ n
      → Leaves (list_insert_before r owner l n d h) r λ g.
        (g.node n ≡ some (mk_node q r v l))
        × (g.node r ≡ some (mk_node n null d l))
        × (g.list l ≡ some (head_of r tl (inc64 s)))
        × ((a : Ptr) → a ≢ n → a ≢ r → g.node a ≡ h.node a)
        × ((b : Ptr) → b ≢ l → g.list b ≡ h.list b)
  unfolding list_insert_before list_create_node
  insert_before_run_first p≡0 hd≡n = (
    record {
      node = update (filled n null n null) n (some (mk_node q r v l));
      list = update (update h.list l (some (head_of r tl s))) l (some (head_of r tl (inc64 s)));
    },
    ground arith,
    (ground arith, ground arith, ground arith, λ a e f. ground arith, λ b ne. ground arith),
  )

  module _ (e : Ptr) (z : Node) (e≢0 : e ≢ null) (e≢n : e ≢ n) (e≢r : e ≢ r)
      (at_e : h.node e ≡ some z) where
    pub insert_after_run :
        q ≡ e
        → Leaves (list_insert_after r owner l n d h) r λ g.
          (g.node n ≡ some (mk_node r p v l))
          × (g.node r ≡ some (mk_node e n d l))
          × (g.node e ≡ some (record z { prev = r }))
          × (g.list l ≡ some (head_of hd tl (inc64 s)))
          × ((a : Ptr) → a ≢ n → a ≢ r → a ≢ e → g.node a ≡ h.node a)
          × ((b : Ptr) → b ≢ l → g.list b ≡ h.list b)
    unfolding list_insert_after list_create_node
    insert_after_run q≡e = (
      record {
        node =
            update (update (filled null n e n) e (some (record z { prev = r }))) n
              (some (mk_node r p v l));
        list = update h.list l (some (head_of hd tl (inc64 s)));
      },
      ground arith,
      (
        ground arith,
        ground arith,
        ground arith,
        ground arith,
        λ a i j k. ground arith,
        λ b ne. ground arith,
      ),
    )

    pub insert_before_run :
        p ≡ e
        → Leaves (list_insert_before r owner l n d h) r λ g.
          (g.node n ≡ some (mk_node q r v l))
          × (g.node r ≡ some (mk_node n e d l))
          × (g.node e ≡ some (record z { next = r }))
          × (g.list l ≡ some (head_of hd tl (inc64 s)))
          × ((a : Ptr) → a ≢ n → a ≢ r → a ≢ e → g.node a ≡ h.node a)
          × ((b : Ptr) → b ≢ l → g.list b ≡ h.list b)
    unfolding list_insert_before list_create_node
    insert_before_run p≡e = (
      record {
        node =
            update (update (filled n null n e) e (some (record z { next = r }))) n
              (some (mk_node q r v l));
        list = update h.list l (some (head_of hd tl (inc64 s)));
      },
      ground arith,
      (
        ground arith,
        ground arith,
        ground arith,
        ground arith,
        λ a i j k. ground arith,
        λ b ne. ground arith,
      ),
    )

pub length-insert :
    (xs ys : Cells) (c e : Ptr × Ptr)
    → length (xs ++ c ∷ ys) + 1 < 2 ^ 64
    → inc64 (length (xs ++ c ∷ ys)) ≡ length (xs ++ c ∷ e ∷ ys)
length-insert xs ys c e fits =
    omega (arith, length-append xs (c ∷ ys), length-append xs (c ∷ e ∷ ys))

pub length-insert_front :
    (xs ys : Cells) (c e : Ptr × Ptr)
    → length (xs ++ c ∷ ys) + 1 < 2 ^ 64
    → inc64 (length (xs ++ c ∷ ys)) ≡ length (xs ++ e ∷ c ∷ ys)
length-insert_front xs ys c e fits =
    omega (arith, length-append xs (c ∷ ys), length-append xs (e ∷ c ∷ ys))

-- a new node next to `n` is apart from what stands before it
pub Apart-insert :
    (xs ys : Cells) (n v r d : Ptr)
    → has r xs ≡ false
    → Apart xs ((n, v) ∷ ys)
    → Apart xs ((n, v) ∷ (r, d) ∷ ys) × Apart xs ((r, d) ∷ (n, v) ∷ ys)
Apart-insert xs ys n v r d out apart = (
  λ a i. given (has-ne a r xs out i) λ ne. ground (arith, apart a i),
  λ a i. given (has-ne a r xs out i) λ ne. ground (arith, apart a i),
)

-- the head of a list that changes behind its first node, or behind none
pub ends_of :
    (xs ys zs : Cells) (stop : Ptr)
    → first ys stop ≡ first zs stop
    → first (xs ++ ys) stop ≡ first (xs ++ zs) stop
ends_of [] ys zs stop e = e
ends_of (x ∷ xs) ys zs stop e = refl

-- what lies outside of the list and the new node
pub outside :
    (a : Ptr) (xs ys : Cells) (n v r d : Ptr)
    → has a ((r, d) ∷ xs ++ (n, v) ∷ ys) ≡ false
    → (a ≢ r) × (has a xs ≡ false) × (a ≢ n) × (has a ys ≡ false)
outside a xs ys n v r d o =
    given (not-has-parts a xs ys n v (ground arith)) λ (o', ne, o''). (ground arith, o', ne, o'')
