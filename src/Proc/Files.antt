-- ===== src/Proc/Files.antt =====
-- The open files of a process: k_process_open_file, k_process_close_file and k_process_get_file of
-- kernel/proc/process.c. `fds` is the list of the current process, by the values of its nodes.
use wyrm_os.Base.{
  ℕ, zero, suc, ◌<◌, ◌≡◌, ◌≢◌, ◌⊎◌, inl, inr, refl, sym, ◌∙◌, ap, Option, none, some, List, [], ◌∷◌,
  ◌++◌, length, get_elem?, arith, given, ℤ, pos, negsuc,
}

-- `fd_entry`; `Node` is the type of the pointers to `fs_node`.
pub record FdEntry (Node : Type 0) : Type 0 where
  pub id : ℕ
  pub node : Node
  pub offset : ℕ

-- The value of a node of the list: NULL, an fd_entry, or a pointer to an fs_node, which
-- k_process_open_file puts where a file was closed.
pub data Slot (Node : Type 0) : Type 0 where
  closed : Slot Node
  entry : FdEntry Node → Slot Node
  raw : Node → Slot Node

order_cases : (a b : ℕ) → (a < b) ⊎ ((a ≡ b) ⊎ (b < a))
order_cases a b = ground arith

module _ {Node : Type 0} where
  -- The loop over the list: the first index whose value is NULL, and the list with the value set.
  pub reuse : List (Slot Node) → Node → Option (ℕ × List (Slot Node))
  reuse [] node = none
  reuse (closed ∷ fds) node = some (0, raw node ∷ fds)
  reuse (entry f ∷ fds) node = elim (reuse fds node) [
    | none ↦ none
    | some (i, rest) ↦ some (suc i, entry f ∷ rest)
  ]
  reuse (raw n ∷ fds) node = elim (reuse fds node) [
    | none ↦ none
    | some (i, rest) ↦ some (suc i, raw n ∷ rest)
  ]

  pub k_process_open_file : List (Slot Node) → Node → ℕ × List (Slot Node)
  unfolding reuse
  k_process_open_file fds node = elim (reuse fds node) [
    | some r ↦ r
    | none ↦ (length fds, fds ++ (entry (record { id = length fds; node = node; offset = 0 }) ∷ []))
  ]

  abbrev pub set : List (Slot Node) → ℕ → Slot Node → List (Slot Node)
  set [] i v = []
  set (x ∷ xs) zero v = v ∷ xs
  set (x ∷ xs) (suc i) v = x ∷ set xs i v

  -- The result, the list and the node that is closed. `none` is a fault: an fs_node is taken for an
  -- fd_entry.
  pub k_process_close_file :
      List (Slot Node) → (fd : ℕ) → Option (ℤ × List (Slot Node) × Option Node)
  k_process_close_file fds fd = elim (get_elem? fds fd) [
    | none ↦ some (negsuc 0, fds, none)
    | some v ↦ elim v [
      | closed ↦ some (negsuc 0, fds, none)
      | entry f ↦ some (pos 0, set fds fd closed, some f.node)
      | raw n ↦ none
    ]
  ]

  -- `closed` is NULL.
  unfoldable pub k_process_get_file : List (Slot Node) → (fd : ℕ) → Slot Node
  k_process_get_file fds fd = elim (get_elem? fds fd) [ none ↦ closed | some v ↦ v ]

  -- A list where node `i` is `v` and the others are as they were.
  abbrev pub SetAt : List (Slot Node) → List (Slot Node) → ℕ → Slot Node → Type 0
  SetAt fds rest i v =
      (get_elem? rest i ≡ some v) × ((j : ℕ) → j ≢ i → get_elem? rest j ≡ get_elem? fds j)

  abbrev pub NoneClosed : List (Slot Node) → (before : ℕ) → Type 0
  NoneClosed fds n = (j : ℕ) → j < n → get_elem? fds j ≢ some closed

  abbrev pub Reused : List (Slot Node) → Node → Type 0
  Reused fds node =
      (i : ℕ) × (rest : List (Slot Node)) × (reuse fds node ≡ some (i, rest))
      × (i < length fds)
      × (get_elem? fds i ≡ some closed)
      × NoneClosed fds i
      × SetAt fds rest i (raw node)

  SetAt-suc :
      (fds rest : List (Slot Node)) (x : Slot Node) (i : ℕ) (v : Slot Node)
      → SetAt fds rest i v
      → SetAt (x ∷ fds) (x ∷ rest) (suc i) v
  SetAt-suc fds rest x i v (here, others) = (here, go)
    where
      go : (j : ℕ) → j ≢ suc i → get_elem? (x ∷ rest) j ≡ get_elem? (x ∷ fds) j
      go zero ne = refl
      go (suc j) ne = others j (λ e. ne (ap suc e))

  NoneClosed-suc :
      (fds : List (Slot Node)) (x : Slot Node) (n : ℕ)
      → x ≢ closed
      → NoneClosed fds n
      → NoneClosed (x ∷ fds) (suc n)
  NoneClosed-suc fds x n ne rest zero lt e = ne (ap (λ o. elim o [ none ↦ x | some y ↦ y ]) e)
  NoneClosed-suc fds x n ne rest (suc j) lt e = rest j (omega arith) e

  reuse_lem :
      (fds : List (Slot Node)) (node : Node)
      → Reused fds node ⊎ ((reuse fds node ≡ none) × NoneClosed fds (length fds))
  unfolding reuse
  reuse_lem [] node = inr (refl, λ j lt. absurd (omega arith))
  reuse_lem (closed ∷ fds) node =
      inl (0, raw node ∷ fds, refl, omega arith, refl, λ j lt. absurd (omega arith), (refl, same))
    where
      same : (j : ℕ) → j ≢ 0 → get_elem? (raw node ∷ fds) j ≡ get_elem? (closed ∷ fds) j
      same zero ne = absurd (ne refl)
      same (suc j) ne = refl
  reuse_lem (entry f ∷ fds) node = elim (reuse_lem fds node) [
    | inl (i, rest, e, lt, here, lower, s) ↦ inl (
      suc i,
      entry f ∷ rest,
      rw e refl,
      omega arith,
      here,
      NoneClosed-suc fds (entry f) i (λ q. cc) lower,
      SetAt-suc fds rest (entry f) i (raw node) s,
    )
    | inr (e, all) ↦ inr (rw e refl, NoneClosed-suc fds (entry f) (length fds) (λ q. cc) all)
  ]
  reuse_lem (raw n ∷ fds) node = elim (reuse_lem fds node) [
    | inl (i, rest, e, lt, here, lower, s) ↦ inl (
      suc i,
      raw n ∷ rest,
      rw e refl,
      omega arith,
      here,
      NoneClosed-suc fds (raw n) i (λ q. cc) lower,
      SetAt-suc fds rest (raw n) i (raw node) s,
    )
    | inr (e, all) ↦ inr (rw e refl, NoneClosed-suc fds (raw n) (length fds) (λ q. cc) all)
  ]

  get_elem?-append :
      (xs : List (Slot Node)) (x : Slot Node)
      → (get_elem? xs (length xs) ≡ none) × SetAt xs (xs ++ (x ∷ [])) (length xs) x
  get_elem?-append [] x = (refl, (refl, others))
    where
      others : (j : ℕ) → j ≢ 0 → get_elem? (x ∷ []) j ≡ get_elem? {A = Slot Node} [] j
      others zero ne = absurd (ne refl)
      others (suc j) ne = refl
  get_elem?-append (y ∷ xs) x =
      given (get_elem?-append xs x)
        λ (out, s). (out, SetAt-suc xs (xs ++ (x ∷ [])) y (length xs) x s)

  -- k_process_open_file uses the first node whose value is NULL, or a new node at the end of the
  -- list where no value is NULL; the other nodes keep their values. A node at the end gets an
  -- fd_entry with its index and offset 0, a node that is used again gets the fs_node.
  pub k_process_open_file-Opened :
      (fds : List (Slot Node)) (node : Node)
      → (i : ℕ) × (rest : List (Slot Node)) × (k_process_open_file fds node ≡ (i, rest))
        × NoneClosed fds i
        × (((get_elem? fds i ≡ some closed) × SetAt fds rest i (raw node))
            ⊎ ((i ≡ length fds)
                × SetAt fds rest i (entry (record { id = i; node = node; offset = 0 }))))
  unfolding k_process_open_file
  k_process_open_file-Opened fds node = elim (reuse_lem fds node) [
    | inl (i, rest, e, lt, here, lower, s) ↦
        (i, rest, rw (k_process_open_file, e) refl, lower, inl (here, s))
    | inr (e, all) ↦
        given (get_elem?-append fds (entry (record { id = length fds; node = node; offset = 0 })))
          λ (out, s). (length fds, _, rw (k_process_open_file, e) refl, all, inr (refl, s))
  ]

  pub get_elem?-set :
      (fds : List (Slot Node)) (i : ℕ) (v w : Slot Node)
      → get_elem? fds i ≡ some v
      → SetAt fds (set fds i w) i w
  get_elem?-set [] i v w e = absurd cc
  get_elem?-set (x ∷ fds) zero v w e = (refl, others)
    where
      others : (j : ℕ) → j ≢ 0 → get_elem? (w ∷ fds) j ≡ get_elem? (x ∷ fds) j
      others zero ne = absurd (ne refl)
      others (suc j) ne = refl
  get_elem?-set (x ∷ fds) (suc i) v w e =
      SetAt-suc fds (set fds i w) x i w (get_elem?-set fds i v w e)

  get_elem?-lt :
      (fds : List (Slot Node)) (i : ℕ) (v : Slot Node) → get_elem? fds i ≡ some v → i < length fds
  get_elem?-lt [] i v e = absurd cc
  get_elem?-lt (x ∷ fds) zero v e = omega arith
  get_elem?-lt (x ∷ fds) (suc i) v e = omega (arith, get_elem?-lt fds i v e)

  first_closed :
      (fds rest : List (Slot Node)) (i fd : ℕ) (v : Slot Node)
      → NoneClosed fds fd
      → SetAt fds rest fd closed
      → get_elem? rest i ≡ some closed
      → NoneClosed rest i
      → i ≡ fd
  first_closed fds rest i fd v below (here, others) e lower = elim (order_cases i fd) [
    | inl lt ↦ absurd (below i lt (sym (others i (λ q. omega arith)) ∙ e))
    | inr (inl eq) ↦ eq
    | inr (inr gt) ↦ absurd (lower fd gt here)
  ]

  -- Opening, closing and opening again: a descriptor that k_process_close_file has closed, with no
  -- NULL below it, is the next that k_process_open_file gives, now with the fs_node as its value,
  -- and closing it once more is a fault.
  pub k_process_close_file-k_process_open_file :
      (fds : List (Slot Node)) (fd : ℕ) (f : FdEntry Node) (node : Node)
      → get_elem? fds fd ≡ some (entry f)
      → NoneClosed fds fd
      → (shut reopened : List (Slot Node)) × (k_process_close_file fds fd
          ≡ some (pos 0, shut, some f.node))
        × (k_process_get_file shut fd ≡ closed)
        × (k_process_open_file shut node ≡ (fd, reopened))
        × (k_process_get_file reopened fd ≡ raw node)
        × (k_process_close_file reopened fd ≡ none)
  unfolding k_process_close_file k_process_get_file k_process_open_file
  k_process_close_file-k_process_open_file fds fd f node e below =
      given (get_elem?-set fds fd (entry f) closed e) λ (s_now, s_others).
        elim (reuse_lem (set fds fd closed) node) [
          | inl (i, rest, run, lt, here, lower, (now, others)) ↦
              let same : i ≡ fd =
                first_closed fds (set fds fd closed) i fd closed below (s_now, s_others) here
                  lower in
              let found : get_elem? rest fd ≡ some (raw node) =
                ap (get_elem? rest) (sym same) ∙ now in
              (
                set fds fd closed,
                rest,
                rw (k_process_close_file, e) refl,
                rw (k_process_get_file, s_now) refl,
                rw (k_process_open_file, run, same) refl,
                rw (k_process_get_file, found) refl,
                rw (k_process_close_file, found) refl,
              )
          | inr (run, all) ↦ absurd (all fd (get_elem?-lt _ fd closed s_now) s_now)
        ]
