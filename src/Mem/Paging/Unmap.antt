-- ===== src/Mem/Paging/Unmap.antt =====
-- k_mem_paging_unmap: the translations afterwards.
use wyrm_os.Base.{
  ℕ, ◌+◌, ◌<◌, ◌≡◌, ◌≢◌, ◌∙◌, sym, ap, refl, true, false, some, List, [], ◌∷◌, length, ltb, ◌==◌,
  if◌then◌else◌, arith, Bool-cases, inl, inr, ◌⊎◌,
}
use wyrm_os.Mem.Paging.{
  Paging, slot, table, present, large, layers, walk, get_physical, set_word, unmap_layers, unmap,
}
use wyrm_os.Mem.Paging.Fill.{Once}
use wyrm_os.Mem.Paging.Walk.{
  Filled, leaf, Small, Avoids, walk-Avoids, walk_cleared, walk_of, get_physical-walk,
}

-- What k_mem_paging_unmap does to the memory: the last entry is 0, or nothing has changed and one
-- on the way is not present.
unmap_layers-leaf :
    (i : ℕ) (ls : List ℕ) (pg v : ℕ) (s : Paging)
    → 0 < length ls
    → i + length ls ≡ 4
    → Small s.high_map s.memory ls pg
    → (unmap_layers i ls pg s ≡ set_word (leaf s.high_map s.memory ls pg) 0 s)
      ⊎ ((unmap_layers i ls pg s ≡ s) × (walk s.high_map s.memory i ls pg v ≡ 0))
unfolding unmap_layers walk
unmap_layers-leaf i [] pg v s some_left sum small = absurd (omega arith)
unmap_layers-leaf i (x ∷ []) pg v s some_left sum small =
    let k : (i == 3) ≡ true = ground arith in
    elim (Bool-cases (present (s.memory (slot pg x)))) [
      | inl e ↦ inl (rw (e, k) refl)
      | inr e ↦ inr (rw e refl, rw e refl)
    ]
unmap_layers-leaf i (x ∷ y ∷ r) pg v s some_left sum (l, small) =
    let k : (i == 3) ≡ false = ground arith in
    let k' : ltb i 3 ≡ true = ground arith in
    elim (Bool-cases (present (s.memory (slot pg x)))) [
      | inl e ↦
          rw (e, k, l, k')
            (unmap_layers-leaf (i + 1) (y ∷ r) (table s.high_map (s.memory (slot pg x))) v s
              (omega arith) (omega arith) small)
      | inr e ↦ inr (rw e refl, rw e refl)
    ]

-- a store of 0 to the last entry
cleared :
    (v : ℕ) (s : Paging)
    → Small s.high_map s.memory (layers v) s.pml
    → walk_of (set_word (leaf s.high_map s.memory (layers v) s.pml) 0 s) v ≡ 0
unfolding walk_of set_word layers
cleared v s small =
    let a : ℕ = leaf s.high_map s.memory (layers v) s.pml in
    let self : (a == a) ≡ true = ground arith in
    walk_cleared s.high_map s.memory (λ b. if b == a then 0 else s.memory b) 0 (layers v) s.pml v
      (omega arith) (rw self refl) (λ b ne. let t : (b == a) ≡ false = ground arith in rw t refl)
      small (omega arith)

elsewhere :
    (u a : ℕ) (s : Paging)
    → Avoids a s.high_map s.memory (layers u) s.pml
    → walk_of (set_word a 0 s) u ≡ walk_of s u
unfolding walk_of set_word
elsewhere u a s away =
    walk-Avoids s.high_map s.memory (λ b. if b == a then 0 else s.memory b) a 0 (layers u) s.pml u
      (λ b ne. let t : (b == a) ≡ false = ground arith in rw t refl) away

unmap-leaf :
    (v : ℕ) (s : Paging)
    → Small s.high_map s.memory (layers v) s.pml
    → (unmap v s ≡ set_word (leaf s.high_map s.memory (layers v) s.pml) 0 s)
      ⊎ ((unmap v s ≡ s) × (walk_of s v ≡ 0))
unfolding unmap walk_of layers
unmap-leaf v s small = unmap_layers-leaf 0 _ s.pml v s (omega arith) (omega arith) small

-- After k_mem_paging_unmap of an address that is not in a large page, it has no translation, and
-- every address whose way does not read the last entry of its way has the same one.
pub unmap-get_physical :
    (v : ℕ) (s : Paging)
    → Small s.high_map s.memory (layers v) s.pml
    → (get_physical v (unmap v s) ≡ some 0)
      × ((u : ℕ)
          → Avoids (leaf s.high_map s.memory (layers v) s.pml) s.high_map s.memory (layers u) s.pml
          → get_physical u (unmap v s) ≡ get_physical u s)
unmap-get_physical v s small = elim (unmap-leaf v s small) [
  | inl e ↦ rw e (
    get_physical-walk v _ ∙ ap (λ (n : ℕ). some n) (cleared v s small),
    λ u away.
        get_physical-walk u _
        ∙ ap (λ (n : ℕ). some n) (elsewhere u _ s away)
        ∙ sym (get_physical-walk u s),
  )
  | inr (e, z) ↦ rw e (get_physical-walk v s ∙ ap (λ (n : ℕ). some n) z, λ u away. refl)
]

-- An entry on the way, but the last one, is one of a large page.
abbrev pub LargeAbove : (high_map : ℕ) (m : ℕ → ℕ) → List ℕ → (pg : ℕ) → Type 0
LargeAbove hm m [] pg = ⊥
LargeAbove hm m (x ∷ []) pg = ⊥
LargeAbove hm m (x ∷ y ∷ r) pg =
    (large (m (slot pg x)) ≡ true) ⊎ LargeAbove hm m (y ∷ r) (table hm (m (slot pg x)))

-- a walk that ends at a large page does not read the last entry
walk-LargeAbove :
    (hm a : ℕ) (m m' : ℕ → ℕ) (i : ℕ) (ls : List ℕ) (pg v : ℕ)
    → ((b : ℕ) → b ≢ a → m' b ≡ m b)
    → Once a hm m ls pg
    → LargeAbove hm m ls pg
    → walk hm m' i ls pg v ≡ walk hm m i ls pg v
unfolding walk
walk-LargeAbove hm a m m' i [] pg v same once l = refl
walk-LargeAbove hm a m m' i (x ∷ []) pg v same once l = absurd l
walk-LargeAbove hm a m m' i (x ∷ y ∷ r) pg v same (ne, once) (inl l) =
    rw (same (slot pg x) ne, l) refl
walk-LargeAbove hm a m m' i (x ∷ y ∷ r) pg v same (ne, once) (inr l) =
    rw
      (
        same (slot pg x) ne,
        walk-LargeAbove hm a m m' (i + 1) (y ∷ r) (table hm (m (slot pg x))) v same once l,
      )
      refl

unmap_layers-Filled :
    (i : ℕ) (ls : List ℕ) (pg : ℕ) (s : Paging)
    → 0 < length ls
    → i + length ls ≡ 4
    → Filled s.high_map s.memory ls pg
    → unmap_layers i ls pg s ≡ set_word (leaf s.high_map s.memory ls pg) 0 s
unfolding unmap_layers
unmap_layers-Filled i [] pg s some_left sum f = absurd (omega arith)
unmap_layers-Filled i (x ∷ []) pg s some_left sum (f, _) =
    let k : (i == 3) ≡ true = ground arith in rw (f, k) refl
unmap_layers-Filled i (x ∷ y ∷ r) pg s some_left sum (f, fs) =
    let k : (i == 3) ≡ false = ground arith in
    rw (f, k)
      (unmap_layers-Filled (i + 1) (y ∷ r) (table s.high_map (s.memory (slot pg x))) s (omega arith)
        (omega arith) fs)

large_kept :
    (v a : ℕ) (s : Paging)
    → Once a s.high_map s.memory (layers v) s.pml
    → LargeAbove s.high_map s.memory (layers v) s.pml
    → walk_of (set_word a 0 s) v ≡ walk_of s v
unfolding walk_of set_word
large_kept v a s once l =
    walk-LargeAbove s.high_map a s.memory (λ b. if b == a then 0 else s.memory b) 0 (layers v) s.pml
      v (λ b ne. let t : (b == a) ≡ false = ground arith in rw t refl) once l

-- k_mem_paging_unmap of an address in a large page, where the word of the page that it takes for the
-- last entry is odd, as are the entries above it, keeps the translation and sets that word to 0.
pub unmap-LargeAbove :
    (v a : ℕ) (s : Paging)
    → leaf s.high_map s.memory (layers v) s.pml ≡ a
    → Filled s.high_map s.memory (layers v) s.pml
    → LargeAbove s.high_map s.memory (layers v) s.pml
    → Once a s.high_map s.memory (layers v) s.pml
    → (get_physical v (unmap v s) ≡ get_physical v s) × ((unmap v s).memory a ≡ 0)
unfolding unmap set_word layers
unmap-LargeAbove v a s last f l once =
    let e : unmap_layers 0 (layers v) s.pml s ≡ set_word a 0 s =
      unmap_layers-Filled 0 (layers v) s.pml s (omega arith) (omega arith) f
      ∙ ap (λ (k : ℕ). set_word k 0 s) last in
    let self : (a == a) ≡ true = ground arith in
    rw e (
      get_physical-walk v _
          ∙ ap (λ (n : ℕ). some n) (large_kept v a s once l)
          ∙ sym (get_physical-walk v s),
      rw self refl,
    )
