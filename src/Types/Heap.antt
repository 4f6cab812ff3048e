-- ===== src/Types/Heap.antt =====
-- The heap of lib/types: `list_node` and `list` objects at addresses, and commands on them.
-- A command is a function of the heap; `none` is a fault: a pointer to no live object is
-- followed, an `assert` fails, or the rounds given to a loop run out.
use wyrm_os.Base.{ℕ, ◌≡◌, Bool, Option, none, some, ◌==◌, if◌then◌else◌}

abbrev pub Ptr : Type 0
Ptr = ℕ

abbrev pub null : Ptr
null = 0

-- `list_node`
pub record Node : Type 0 where
  pub next : Ptr
  pub prev : Ptr
  pub value : Ptr
  pub owner : Ptr

-- `list`
pub record Head : Type 0 where
  pub head : Ptr
  pub tail : Ptr
  pub size : ℕ

pub record Heap : Type 0 where
  pub node : Ptr → Option Node
  pub list : Ptr → Option Head

abbrev pub update {ℓ} : {A : Type ℓ} → (Ptr → Option A) → Ptr → Option A → Ptr → Option A
update f p v q = if q == p then v else f q

abbrev pub Cmd : Type 0 → Type 0
Cmd A = Heap → Option (A × Heap)

abbrev pub pure : {A : Type 0} → A → Cmd A
pure a h = some (a, h)

abbrev pub fault : {A : Type 0} → Cmd A
fault h = none

infixl 5 ◌>>=◌ ◌>>◌
abbrev pub ◌>>=◌ : {A B : Type 0} → Cmd A → (A → Cmd B) → Cmd B
◌>>=◌ m f h = elim (m h) [ none ↦ none | some (a, h') ↦ f a h' ]

abbrev pub ◌>>◌ : {A B : Type 0} → Cmd A → Cmd B → Cmd B
m >> k = m >>= λ _. k

abbrev pub assert : Bool → Cmd (Unit {0})
assert b = if b then pure tt else fault

abbrev pub is_null : Ptr → Bool
is_null p = p == null

-- `*p`
abbrev pub load : Ptr → Cmd Node
load p h = elim (h.node p) [ none ↦ none | some n ↦ some (n, h) ]

abbrev pub load_list : Ptr → Cmd Head
load_list p h = elim (h.list p) [ none ↦ none | some l ↦ some (l, h) ]

-- the raw writes; `none` gives the object back
abbrev pub put : Ptr → Option Node → Cmd (Unit {0})
put p n h = some (tt, record h { node = update h.node p n })

abbrev pub put_list : Ptr → Option Head → Cmd (Unit {0})
put_list p l h = some (tt, record h { list = update h.list p l })

-- `p->next = q` and so on
abbrev pub set_next : Ptr → Ptr → Cmd (Unit {0})
set_next p q = do n ← load p; put p (some (record n { next = q }))

abbrev pub set_prev : Ptr → Ptr → Cmd (Unit {0})
set_prev p q = do n ← load p; put p (some (record n { prev = q }))

abbrev pub set_owner : Ptr → Ptr → Cmd (Unit {0})
set_owner p q = do n ← load p; put p (some (record n { owner = q }))

abbrev pub set_head : Ptr → Ptr → Cmd (Unit {0})
set_head l p = do x ← load_list l; put_list l (some (record x { head = p }))

abbrev pub set_tail : Ptr → Ptr → Cmd (Unit {0})
set_tail l p = do x ← load_list l; put_list l (some (record x { tail = p }))

abbrev pub set_size : Ptr → ℕ → Cmd (Unit {0})
set_size l n = do x ← load_list l; put_list l (some (record x { size = n }))

-- Total correctness of a command: no fault, and a postcondition of its result and final heap.
pub data Returns {A : Type 0} (P : A → Heap → Type 0) : Option (A × Heap) → Type 0 where
  returns : {a : A} {h : Heap} → P a h → Returns P (some (a, h))

-- `m` runs to completion from `h` with result `a`, and leaves `g`.
abbrev pub Runs : {A : Type 0} → Cmd A → Heap → A → Heap → Type 0
Runs m h a g = m h ≡ some (a, g)

-- `r` is a completed run with result `a`, whose heap satisfies `P`.
abbrev pub Leaves : {A : Type 0} → Option (A × Heap) → A → (Heap → Type 0) → Type 0
Leaves r a P = (g : Heap) × (r ≡ some (a, g)) × P g

pub leaves :
    {A : Type 0} {Q : A → Heap → Type 0} {r : Option (A × Heap)} {a : A} {P : Heap → Type 0}
    → Leaves r a P
    → ((g : Heap) → P g → Q a g)
    → Returns Q r
leaves (g, run, p) next = rw run (returns (next g p))

pub bind :
    {A B : Type 0} {P : A → Heap → Type 0} {Q : B → Heap → Type 0} {r : Option (A × Heap)}
    {k : A → Cmd B}
    → Returns P r
    → ((a : A) (h : Heap) → P a h → Returns Q (k a h))
    → Returns Q (elim r [ none ↦ none | some (a, h) ↦ k a h ])
bind (returns p) next = next _ _ p

pub mono :
    {A : Type 0} {P Q : A → Heap → Type 0} {r : Option (A × Heap)}
    → Returns P r
    → ((a : A) (h : Heap) → P a h → Q a h)
    → Returns Q r
mono (returns p) next = returns (next _ _ p)

-- the result of a run that completes, by the equation that it satisfies
pub runs :
    {A : Type 0} {P : A → Heap → Type 0} {r : Option (A × Heap)} {a : A} {h : Heap}
    → r ≡ some (a, h)
    → P a h
    → Returns P r
runs run p = rw run (returns p)
