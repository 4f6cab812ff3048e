-- ===== src/Mem/Paging/Space/Free.antt =====
-- k_mem_paging_free_pml: the frames that are free afterwards.
use wyrm_os.Base.{
  ℕ, zero, suc, ◌+◌, ◌/◌, ◌≤◌, ◌<◌, ◌≡◌, ◌⊎◌, ◌∙◌, ap, refl, true, List, [], ◌∷◌, length, ◌==◌,
  arith, Bool-cases, inl, inr, if◌then◌else◌,
}
use wyrm_os.Mem.Pmm.{mark_frame}
use wyrm_os.Mem.Pmm.Frames.{is_free}
use wyrm_os.Mem.Pmm.Mark.{mark_frame_ready, mark_frame_kept, mark_frame_self}
use wyrm_os.Mem.Paging.{Paging, slot, table, page_of, layers}
use wyrm_os.Mem.Paging.Space.{owned, free_entries, free_table, free_pml}

-- What every part of k_mem_paging_free_pml keeps: the tables, the free frames, and the bitmap's size
pub record Freed (s s' : Paging) : Type 0 where
  pub memory : s'.memory ≡ s.memory
  pub high_map : s'.high_map ≡ s.high_map
  pub ready : s'.pmm.initialized ≡ true
  pub size : s'.pmm.size ≡ s.pmm.size
  pub free : (g : ℕ) → is_free s.pmm.bitmap g ≡ true → is_free s'.pmm.bitmap g ≡ true

Freed-refl : (s : Paging) → s.pmm.initialized ≡ true → Freed s s
Freed-refl s i = record { memory = refl; high_map = refl; ready = i; size = refl; free = λ g h. h }

Freed-trans : {s s' s'' : Paging} → Freed s s' → Freed s' s'' → Freed s s''
Freed-trans f g = record {
  memory = g.memory ∙ f.memory;
  high_map = g.high_map ∙ f.high_map;
  ready = g.ready;
  size = g.size ∙ f.size;
  free = λ q h. g.free q (f.free q h);
}

-- a frame that is marked
abbrev marked : ℕ → Paging → Paging
marked f s = record s { pmm = (mark_frame s.pmm f).0 }

mark-Freed : (f : ℕ) (s : Paging) → s.pmm.initialized ≡ true → Freed s (marked f s)
mark-Freed f s i = record {
  memory = refl;
  high_map = refl;
  ready = (mark_frame_ready s.pmm f i).0;
  size = (mark_frame_ready s.pmm f i).1;
  free = λ g h. mark_frame_kept s.pmm f g h;
}

-- one round of a loop of k_mem_paging_free_pml
abbrev round : (ℕ → Paging → Paging) → (i pg : ℕ) → Paging → Paging
round deeper i pg s =
    let w = s.memory (slot pg i) in
    if owned w
    then (let s' = deeper (table s.high_map w) s in marked (page_of (s'.memory (slot pg i))) s')
    else s

-- What is freed below the entries of a table keeps the rest.
abbrev Frees : (ℕ → Paging → Paging) → Type 0
Frees deeper = (pg : ℕ) (s : Paging) → s.pmm.initialized ≡ true → Freed s (deeper pg s)

round-Freed :
    (deeper : ℕ → Paging → Paging) (i pg : ℕ) (s : Paging)
    → Frees deeper
    → s.pmm.initialized ≡ true
    → Freed s (round deeper i pg s)
round-Freed deeper i pg s d r = elim (Bool-cases (owned (s.memory (slot pg i)))) [
  | inl e ↦
      let f : Freed s (deeper (table s.high_map (s.memory (slot pg i))) s) = d _ s r in
      rw e (Freed-trans f (mark-Freed _ _ f.ready))
  | inr e ↦ rw e (Freed-refl s r)
]

free_entries-Freed :
    (deeper : ℕ → Paging → Paging) (left i pg : ℕ) (s : Paging)
    → Frees deeper
    → s.pmm.initialized ≡ true
    → Freed s (free_entries deeper left i pg s)
unfolding free_entries
free_entries-Freed deeper zero i pg s d r = Freed-refl s r
free_entries-Freed deeper (suc left) i pg s d r =
    let f : Freed s (round deeper i pg s) = round-Freed deeper i pg s d r in
    Freed-trans f (free_entries-Freed deeper left (i + 1) pg (round deeper i pg s) d f.ready)

free_table-Frees : (depth : ℕ) → Frees (free_table depth)
unfolding free_table
free_table-Frees zero pg s r = Freed-refl s r
free_table-Frees (suc depth) pg s r =
    free_entries-Freed (free_table depth) 512 0 pg s (free_table-Frees depth) r

-- A frame that the round of one entry frees, whatever the rounds before it have done, is free.
free_entries-round :
    (deeper : ℕ → Paging → Paging) (left i pg j g : ℕ) (s : Paging)
    → Frees deeper
    → s.pmm.initialized ≡ true
    → i ≤ j
    → j < i + left
    → ((s' : Paging) → Freed s s' → is_free (round deeper j pg s').pmm.bitmap g ≡ true)
    → is_free (free_entries deeper left i pg s).pmm.bitmap g ≡ true
unfolding free_entries
free_entries-round deeper zero i pg j g s d r low high h = absurd (omega arith)
free_entries-round deeper (suc left) i pg j g s d r low high h =
    let f : Freed s (round deeper i pg s) = round-Freed deeper i pg s d r in
    elim (Bool-cases (i == j)) [
      | inl e ↦
          let e' : i ≡ j = ground arith in
          (free_entries-Freed deeper left (i + 1) pg (round deeper i pg s) d f.ready).free g
            (ap (λ (k : ℕ). is_free (round deeper k pg s).pmm.bitmap g) e' ∙ h s (Freed-refl s r))
      | inr e ↦
          free_entries-round deeper left (i + 1) pg j g (round deeper i pg s) d f.ready
            (ground arith) (omega arith) (λ s' f'. h s' (Freed-trans f f'))
    ]

-- All entries on the way belong to the process.
abbrev pub Owned : (high_map : ℕ) (m : ℕ → ℕ) → List ℕ → (pg : ℕ) → Type 0
Owned hm m [] pg = Unit {0}
Owned hm m (x ∷ r) pg =
    (x < 512) × (owned (m (slot pg x)) ≡ true) × Owned hm m r (table hm (m (slot pg x)))

-- An entry on the way holds the frame `g`.
abbrev pub Holds : (g high_map : ℕ) (m : ℕ → ℕ) → List ℕ → (pg : ℕ) → Type 0
Holds g hm m [] pg = ⊥
Holds g hm m (x ∷ r) pg = (g ≡ page_of (m (slot pg x))) ⊎ Holds g hm m r (table hm (m (slot pg x)))

-- the round of an entry that holds the frame, or below which the frame is freed
round_free :
    (deeper : ℕ → Paging → Paging) (x pg g hm w : ℕ) (s : Paging)
    → Frees deeper
    → s.pmm.initialized ≡ true
    → s.high_map ≡ hm
    → s.memory (slot pg x) ≡ w
    → owned w ≡ true
    → g / 64 ≤ s.pmm.size
    → (g ≡ page_of w) ⊎ (is_free (deeper (table hm w) s).pmm.bitmap g ≡ true)
    → is_free (round deeper x pg s).pmm.bitmap g ≡ true
round_free deeper x pg g hm w s d r eh ew own inside h =
    let f : Freed s (deeper (table s.high_map w) s) = d _ s r in
    let word : (deeper (table s.high_map w) s).memory (slot pg x) ≡ w =
      ap (λ (k : ℕ → ℕ). k (slot pg x)) f.memory ∙ ew in
    rw (ew, own, word)
      (elim h [
        | inl e ↦ rw e (
            mark_frame_self (deeper (table s.high_map w) s).pmm (page_of w)
              (omega (arith, f.size, inside, e)))
        | inr k ↦
            mark_frame_kept (deeper (table s.high_map w) s).pmm (page_of w) g
              (ap (λ (q : ℕ). is_free (deeper (table q w) s).pmm.bitmap g) eh ∙ k)
      ])

free_table-Holds :
    (hm : ℕ) (m : ℕ → ℕ) (ls : List ℕ) (pg g : ℕ) (s : Paging)
    → s.high_map ≡ hm
    → s.memory ≡ m
    → s.pmm.initialized ≡ true
    → g / 64 ≤ s.pmm.size
    → Owned hm m ls pg
    → Holds g hm m ls pg
    → is_free (free_table (length ls) pg s).pmm.bitmap g ≡ true
unfolding free_table
free_table-Holds hm m [] pg g s eh em r inside o h = absurd h
free_table-Holds hm m (x ∷ rest) pg g s eh em r inside (lt, own, o) h =
    free_entries-round (free_table (length rest)) 512 0 pg x g s (free_table-Frees (length rest)) r
      (omega arith) (omega arith)
      (λ s' f.
        round_free (free_table (length rest)) x pg g hm (m (slot pg x)) s'
          (free_table-Frees (length rest)) f.ready (f.high_map ∙ eh)
          (ap (λ (k : ℕ → ℕ). k (slot pg x)) (f.memory ∙ em)) own (omega (arith, f.size, inside))
          (below h (
            free_table-Holds hm m rest (table hm (m (slot pg x))) g s' (f.high_map ∙ eh)
              (f.memory ∙ em) f.ready (omega (arith, f.size, inside)) o)))
  where
    below : {A B C : Type 0} → A ⊎ B → (B → C) → A ⊎ C
    below (inl a) k = inl a
    below (inr b) k = inr (k b)

-- k_mem_paging_free_pml of page tables in which the process owns all entries on the way of an address
-- makes the frames free that these entries hold, those of the tables and that of the page; frames
-- that were free stay free, and the tables keep their contents.
pub free_pml-Holds :
    (pml v g : ℕ) (s : Paging)
    → s.pmm.initialized ≡ true
    → g / 64 ≤ s.pmm.size
    → Owned s.high_map s.memory (layers v) pml
    → Holds g s.high_map s.memory (layers v) pml
    → (is_free (free_pml pml s).pmm.bitmap g ≡ true) × Freed s (free_pml pml s)
unfolding free_pml layers
free_pml-Holds pml v g s r inside o h = (
  free_table-Holds s.high_map s.memory (layers v) pml g s refl refl r inside o h,
  free_table-Frees 4 pml s r,
)
