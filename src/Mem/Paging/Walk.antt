-- ===== src/Mem/Paging/Walk.antt =====
-- The way of an address through the tables, and what a store of a word does to it.
use wyrm_os.Base.{
  ℕ, ◌+◌, ◌%◌, ◌<◌, ◌≡◌, ◌≢◌, ◌∙◌, ap, refl, true, false, some, List, [], ◌∷◌, length, ltb, ◌==◌,
  arith, Bool-cases, inl, inr,
}
use wyrm_os.Base.Word.{u64, page_size}
use wyrm_os.Mem.Paging.{
  Paging, slot, table, present, large, page_of, page_addr, layers, walk, get_physical, page_base,
}

-- The place of the last entry on the way through the tables, whether or not they are present
abbrev pub leaf : (high_map : ℕ) (m : ℕ → ℕ) → List ℕ → (pg : ℕ) → ℕ
leaf hm m [] pg = pg
leaf hm m (x ∷ []) pg = slot pg x
leaf hm m (x ∷ y ∷ r) pg = leaf hm m (y ∷ r) (table hm (m (slot pg x)))

-- No entry on the way is one of a large page.
abbrev pub Small : (high_map : ℕ) (m : ℕ → ℕ) → List ℕ → (pg : ℕ) → Type 0
Small hm m [] pg = Unit {0}
Small hm m (x ∷ r) pg = (large (m (slot pg x)) ≡ false) × Small hm m r (table hm (m (slot pg x)))

-- All entries on the way are present.
abbrev pub Filled : (high_map : ℕ) (m : ℕ → ℕ) → List ℕ → (pg : ℕ) → Type 0
Filled hm m [] pg = Unit {0}
Filled hm m (x ∷ r) pg = (present (m (slot pg x)) ≡ true) × Filled hm m r (table hm (m (slot pg x)))

-- The way does not read the word at `a`.
abbrev pub Avoids : (a high_map : ℕ) (m : ℕ → ℕ) → List ℕ → (pg : ℕ) → Type 0
Avoids a hm m [] pg = Unit {0}
Avoids a hm m (x ∷ r) pg = (slot pg x ≢ a) × Avoids a hm m r (table hm (m (slot pg x)))

-- The entries that were present are as they were.
abbrev pub Grows : (m m' : ℕ → ℕ) → Type 0
Grows m m' = (a : ℕ) → present (m a) ≡ true → m' a ≡ m a

pub Grows-trans : {m m' m'' : ℕ → ℕ} → Grows m m' → Grows m' m'' → Grows m m''
Grows-trans g h a p = h a (ap present (g a p) ∙ p) ∙ g a p

-- the asserts of k_mem_paging_get_physical never fail
pub get_physical_lem :
    (v : ℕ) (s : Paging)
    → get_physical v s ≡ some (walk s.high_map s.memory 0 (layers (page_base v)) s.pml v)
unfolding get_physical
get_physical_lem v s = ground arith

-- a walk that finds a page finds the same one after entries were added
pub walk-Grows :
    (hm : ℕ) (m m' : ℕ → ℕ) (i : ℕ) (ls : List ℕ) (pg v : ℕ)
    → Grows m m'
    → walk hm m i ls pg v ≢ 0
    → walk hm m' i ls pg v ≡ walk hm m i ls pg v
unfolding walk
walk-Grows hm m m' i [] pg v g ne = refl
walk-Grows hm m m' i (x ∷ r) pg v g ne = elim (Bool-cases (present (m (slot pg x)))) [
  | inr e ↦ absurd (ne (rw e refl))
  | inl e ↦ elim (Bool-cases (large (m (slot pg x)))) [
    | inl l ↦ rw (g (slot pg x) e, e, l) refl
    | inr l ↦ elim (Bool-cases (ltb i 3)) [
      | inr k ↦ rw (g (slot pg x) e, e, l, k) refl
      | inl k ↦
          rw (g (slot pg x) e, e, l, k)
            (walk-Grows hm m m' (i + 1) r (table hm (m (slot pg x))) v g (rw (e, l, k) at ne))
    ]
  ]
]

-- a walk that reads another word finds the same page
pub walk-Avoids :
    (hm : ℕ) (m m' : ℕ → ℕ) (a i : ℕ) (ls : List ℕ) (pg v : ℕ)
    → ((b : ℕ) → b ≢ a → m' b ≡ m b)
    → Avoids a hm m ls pg
    → walk hm m' i ls pg v ≡ walk hm m i ls pg v
unfolding walk
walk-Avoids hm m m' a i [] pg v same away = refl
walk-Avoids hm m m' a i (x ∷ r) pg v same (ne, away) =
    rw (same (slot pg x) ne, walk-Avoids hm m m' a (i + 1) r (table hm (m (slot pg x))) v same away)
      refl

-- a walk whose entries are all present and small ends at the page of the last one
pub walk-Filled :
    (hm : ℕ) (m : ℕ → ℕ) (i : ℕ) (ls : List ℕ) (pg v : ℕ)
    → 0 < length ls
    → i + length ls ≡ 4
    → Filled hm m ls pg
    → Small hm m ls pg
    → walk hm m i ls pg v ≡ u64 (page_addr (page_of (m (leaf hm m ls pg))) + v % page_size)
unfolding walk
walk-Filled hm m i [] pg v some_left sum f l = absurd (omega arith)
walk-Filled hm m i (x ∷ []) pg v some_left sum (f, _) (l, _) =
    let k : ltb i 3 ≡ false = ground arith in rw (f, l, k) refl
walk-Filled hm m i (x ∷ y ∷ r) pg v some_left sum (f, fs) (l, ls) =
    let k : ltb i 3 ≡ true = ground arith in
    rw (f, l, k)
      (walk-Filled hm m (i + 1) (y ∷ r) (table hm (m (slot pg x))) v (omega arith) (omega arith) fs
        ls)

-- A store of 0 to the last entry makes the walk end with NULL, wherever else the entry is used.
pub walk_cleared :
    (hm : ℕ) (m m' : ℕ → ℕ) (i : ℕ) (ls : List ℕ) (pg v : ℕ)
    → 0 < length ls
    → m' (leaf hm m ls pg) ≡ 0
    → ((b : ℕ) → b ≢ leaf hm m ls pg → m' b ≡ m b)
    → Small hm m ls pg
    → i + length ls ≡ 4
    → walk hm m' i ls pg v ≡ 0
unfolding walk
walk_cleared hm m m' i [] pg v some_left z same l sum = refl
walk_cleared hm m m' i (x ∷ []) pg v some_left z same l sum = rw z refl
walk_cleared hm m m' i (x ∷ y ∷ r) pg v some_left z same (l, ls) sum =
    let a : ℕ = leaf hm m (x ∷ y ∷ r) pg in
    elim (Bool-cases (slot pg x == a)) [
      | inl e ↦
          let e' : slot pg x ≡ a = ground arith in
          let w : m' (slot pg x) ≡ 0 = ap m' e' ∙ z in rw w refl
      | inr e ↦
          let w : m' (slot pg x) ≡ m (slot pg x) = same (slot pg x) (λ q. ground arith) in
          let k : ltb i 3 ≡ true = ground arith in
          rw (w, l, k)
            (rw
              (walk_cleared hm m m' (i + 1) (y ∷ r) (table hm (m (slot pg x))) v (omega arith) z
                same ls (omega arith))
              (ground arith))
    ]

-- the offset does not matter for the tables
layers-page_base : (v : ℕ) → layers (page_base v) ≡ layers v
unfolding layers
layers-page_base v = ground arith

unfoldable pub walk_of : Paging → ℕ → ℕ
walk_of s v = walk s.high_map s.memory 0 (layers v) s.pml v

pub get_physical-walk : (v : ℕ) (s : Paging) → get_physical v s ≡ some (walk_of s v)
unfolding walk_of
get_physical-walk v s = rw (← layers-page_base v) (get_physical_lem v s)
