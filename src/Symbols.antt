-- ===== src/Symbols.antt =====
-- kernel/symbols.c: the table of the symbols that the kernel exports.
mod Tests
use wyrm_os.Base.{
  ℕ, ◌-◌, ◌^◌, ◌≤◌, ◌<◌, ◌≡◌, ◌∙◌, ◌⊎◌, inl, inr, refl, sym, Bool, true, false, not, ◌&&◌, Option,
  none, some, List, [], ◌∷◌, ltb, ◌==◌, if◌then◌else◌, arith, Bool-cases, given,
}
use wyrm_os.Fs.Vfs.{same_name}

-- `symbol`; the name is its bytes
pub record Symbol : Type 0 where
  pub address : ℕ
  pub internal : Bool
  pub name : List ℕ

abbrev pub virtual_base : ℕ
virtual_base = 0xFFFFFFFF80000000

-- `none` is NULL.
pub k_lookup_symbol : List Symbol → (name : List ℕ) → Option Symbol
k_lookup_symbol [] name = none
k_lookup_symbol (s ∷ table) name =
    let rest = k_lookup_symbol table name in
    if same_name s.name name && not s.internal then some s else rest

-- The loop of k_find_nearest_symbol, with `nearest` and `nearest_distance`.
pub nearest_loop : ℕ → List Symbol → Option Symbol → ℕ → Option Symbol
nearest_loop address [] nearest distance = nearest
nearest_loop address (s ∷ table) nearest distance =
    let skip = nearest_loop address table nearest distance in
    let next = nearest_loop address table (some s) (address - s.address) in
    if ltb address s.address
    then skip
    else if ltb (address - s.address) distance
    then (if address - s.address == 0 then some s else next)
    else skip

pub k_find_nearest_symbol : List Symbol → (address : ℕ) → Option Symbol
unfolding nearest_loop
k_find_nearest_symbol table address =
    if ltb address virtual_base then none else nearest_loop address table none (2 ^ 64 - 1)

-- No symbol of the table stands at or below the address.
abbrev pub Above : ℕ → List Symbol → Type 0
Above address [] = Unit {0}
Above address (s ∷ table) = (address < s.address) × Above address table

-- No symbol of the table at or below the address stands above `bound`.
abbrev pub Below : ℕ → ℕ → List Symbol → Type 0
Below address bound [] = Unit {0}
Below address bound (s ∷ table) =
    ((address < s.address) ⊎ (s.address ≤ bound)) × Below address bound table

abbrev pub In : Symbol → List Symbol → Type 0
In s [] = ⊥
In s (t ∷ table) = (s ≡ t) ⊎ In s table

Below-le :
    (address a b : ℕ) (table : List Symbol) → a ≤ b → Below address a table → Below address b table
Below-le address a b [] le all = tt
Below-le address a b (s ∷ table) le (inl x, all) = (inl x, Below-le address a b table le all)
Below-le address a b (s ∷ table) le (inr x, all) =
    (inr (omega arith), Below-le address a b table le all)

top : (address : ℕ) (table : List Symbol) → Below address address table
top address [] = tt
top address (s ∷ table) = (ground arith, top address table)

wider :
    (s near t : Symbol) (table : List Symbol)
    → (s ≡ near) ⊎ In s table
    → (s ≡ near) ⊎ In s (t ∷ table)
wider s near t table (inl e) = inl e
wider s near t table (inr i) = inr (inr i)

-- The loop from a nearest symbol on, whose distance is `distance`.
nearest_loop-some :
    (address : ℕ) (table : List Symbol) (near : Symbol)
    → near.address ≤ address
    → (s : Symbol) × (nearest_loop address table (some near) (address - near.address) ≡ some s)
      × ((s ≡ near) ⊎ In s table)
      × (s.address ≤ address)
      × (near.address ≤ s.address)
      × Below address s.address table
unfolding nearest_loop
nearest_loop-some address [] near le = (near, refl, inl refl, le, omega arith, tt)
nearest_loop-some address (t ∷ table) near le = elim (Bool-cases (ltb address t.address)) [
  | inl high ↦
      let (s, run, here, le', up, all) = nearest_loop-some address table near le in
      rw high (s, run, wider s near t table here, le', up, (ground arith, all))
  | inr low ↦ elim (Bool-cases (ltb (address - t.address) (address - near.address))) [
    | inr far ↦
        let (s, run, here, le', up, all) = nearest_loop-some address table near le in
        rw (low, far) (s, run, wider s near t table here, le', up, (ground arith, all))
    | inl closer ↦ elim (Bool-cases (address - t.address == 0)) [
      | inl hit' ↦
          rw (low, closer, hit')
            (
              t,
              refl,
              inr (inl refl),
              ground arith,
              ground arith,
              (
                inr (omega arith),
                Below-le address address t.address table (ground arith) (top address table),
              ),
            )
      | inr miss ↦
          let (s, run, here, le', up, all) = nearest_loop-some address table t (ground arith) in
          rw (low, closer, miss) (s, run, inr here, le', ground arith, (inr (omega arith), all))
    ]
  ]
]

-- What the search should find: the highest symbol at or below the address, or none where there is
-- none.
abbrev pub Nearest : ℕ → List Symbol → Option Symbol → Type 0
Nearest address table r =
    ((r ≡ none) × Above address table)
    ⊎ ((s : Symbol) × (r ≡ some s)
        × In s table
        × (s.address ≤ address)
        × Below address s.address table)

nearest_loop-Nearest :
    (address : ℕ) (table : List Symbol)
    → address < 2 ^ 64 - 1
    → Nearest address table (nearest_loop address table none (2 ^ 64 - 1))
unfolding nearest_loop
nearest_loop-Nearest address [] lt = inl (refl, tt)
nearest_loop-Nearest address (t ∷ table) lt = elim (Bool-cases (ltb address t.address)) [
  | inl high ↦ elim (nearest_loop-Nearest address table lt) [
    | inl (e, all) ↦ rw high (inl (e, (ground arith, all)))
    | inr (s, e, here, le, all) ↦ rw high (inr (s, e, inr here, le, (inl (ground arith), all)))
  ]
  | inr low ↦
      let close : ltb (address - t.address) (2 ^ 64 - 1) ≡ true = ground arith in
      elim (Bool-cases (address - t.address == 0)) [
        | inl hit' ↦
            rw (low, close, hit')
              (inr (
                t,
                refl,
                inl refl,
                ground arith,
                (
                  inr (omega arith),
                  Below-le address address t.address table (ground arith) (top address table),
                ),
              ))
        | inr miss ↦
            let (s, run, here, le', up, all) = nearest_loop-some address table t (ground arith) in
            rw (low, close, miss) (inr (s, run, here, le', (inr up, all)))
      ]
]

-- k_find_nearest_symbol of an address of the kernel, but the last one of the address space, is the
-- highest symbol at or below the address, and NULL where there is none.
pub k_find_nearest_symbol-Nearest :
    (table : List Symbol) (address : ℕ)
    → virtual_base ≤ address
    → address < 2 ^ 64 - 1
    → Nearest address table (k_find_nearest_symbol table address)
unfolding k_find_nearest_symbol
k_find_nearest_symbol-Nearest table address inside lt =
    let go : ltb address virtual_base ≡ false = ground arith in
    rw go (nearest_loop-Nearest address table lt)
