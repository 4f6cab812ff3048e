-- ===== src/Types/DList/Chain/Defs.antt =====
-- What a `list` of list.c stands for: the nodes that the pointers lead through, in order.
use wyrm_os.Base.{
  ℕ, suc, ◌+◌, ◌<◌, ◌≡◌, refl, ◌≢◌, Bool, true, false, ◌||◌, Option, some, List, [], ◌∷◌, ◌++◌,
  arith, ◌==◌, length, inc64, length-append, ap, ◌^◌, Bool-cases, inl, inr,
}
use wyrm_os.Types.Heap.{Ptr, null, Node, Head, Heap}

-- address and value of each node
abbrev pub Cells : Type 0
Cells = List (Ptr × Ptr)

abbrev pub has : Ptr → Cells → Bool
has a [] = false
has a ((p, _) ∷ xs) = (a == p) || has a xs

abbrev pub mk_node : Ptr → Ptr → Ptr → Ptr → Node
mk_node n p v o = record { next = n; prev = p; value = v; owner = o }

-- the address that comes first in `xs` followed by `stop`, and last in `xs` after `start`
abbrev pub first : Cells → Ptr → Ptr
first [] stop = stop
first ((a, v) ∷ xs) stop = a

abbrev pub last : Cells → Ptr → Ptr
last [] start = start
last ((a, v) ∷ xs) start = last xs a

-- From the node behind `start`, the `next` pointers lead through the distinct nodes `xs`, all
-- owned by `o`, to `stop`, and the `prev` pointers lead back.
abbrev pub Chain : (Ptr → Option Node) → Ptr → Ptr → Cells → Ptr → Type 0
Chain h o start [] stop = Unit
Chain h o start ((a, v) ∷ xs) stop =
    (a ≢ null)
    × (has a xs ≡ false)
    × (h a ≡ some (mk_node (first xs stop) start v o))
    × Chain h o a xs stop

pub record IsList (h : Heap) (l : Ptr) (xs : Cells) : Type 0 where
  pub ne_null : l ≢ null
  pub holds :
      h.list l ≡ some (record { head = first xs null; tail = last xs null; size = length xs })
  pub chain : Chain h.node l null xs null

pub has-append : (a : Ptr) (xs ys : Cells) → has a (xs ++ ys) ≡ (has a xs || has a ys)
has-append a [] ys = refl
has-append a ((b, v) ∷ xs) ys = ground (arith, has-append a xs ys)

pub first-append : (xs ys : Cells) (stop : Ptr) → first (xs ++ ys) stop ≡ first xs (first ys stop)
first-append [] ys stop = refl
first-append ((a, v) ∷ xs) ys stop = refl

pub last-append : (xs ys : Cells) (start : Ptr) → last (xs ++ ys) start ≡ last ys (last xs start)
last-append [] ys start = refl
last-append ((a, v) ∷ xs) ys start = last-append xs ys a

abbrev pub head_of : Ptr → Ptr → ℕ → Head
head_of p q n = record { head = p; tail = q; size = n }

pub not_null : (l : Ptr) → l ≢ null → (l == null) ≡ false
not_null l ne = ground arith

pub has-ne : (b n : Ptr) (xs : Cells) → has n xs ≡ false → has b xs ≡ true → b ≢ n
has-ne b n xs out i e = cc (ap (λ c. has c xs) e)

pub has-cons_ne :
    (b n v : Ptr) (xs : Cells) → b ≢ n → has b xs ≡ false → has b ((n, v) ∷ xs) ≡ false
has-cons_ne b n v xs ne out = ground arith

pub has-apart :
    (b n v : Ptr) (xs : Cells) → has n xs ≡ false → has b xs ≡ true → has b ((n, v) ∷ []) ≡ false
has-apart b n v xs out i = elim (Bool-cases (b == n)) [ inl e ↦ ground arith | inr ne ↦ rw ne ]

pub inc_length-append :
    {A : Type 0} (x : A) (xs : List A)
    → length xs + 2 < 2 ^ 64
    → inc64 (suc (length xs)) ≡ suc (length (xs ++ x ∷ []))
inc_length-append x xs fits = omega (arith, length-append xs (x ∷ []))

-- the nodes outside `xs` and the lists other than `l` are as before
pub record Keeps (l : Ptr) (xs : Cells) (h g : Heap) : Type 0 where
  pub nodes : (a : Ptr) → has a xs ≡ false → g.node a ≡ h.node a
  pub lists : (b : Ptr) → b ≢ l → g.list b ≡ h.list b
