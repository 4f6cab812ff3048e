-- ===== src/Mem/Paging/Fill.antt =====
-- The loop of k_mem_paging_map_ex over the layers: what it fills in, and what it keeps.
use wyrm_os.Base.{
  ℕ, ◌+◌, ◌<◌, ◌≡◌, ◌≢◌, ◌∙◌, sym, ap, refl, true, false, some, List, [], ◌∷◌, length, ◌==◌, arith,
  Bool-cases, inl, inr, Option-cases,
}
use mathlib.Core.Path.{subst}
use wyrm_os.Base.Word.{frame_of}
use wyrm_os.Mem.Paging.{
  Paging, slot, table, present, set_word, entry, entry_frame, fill, map_layers,
}
use wyrm_os.Mem.Paging.Walk.{leaf, Filled, Grows, Grows-trans}

entry-present : (flags frame : ℕ) → present (entry flags frame) ≡ true
unfolding entry
entry-present flags frame = ground arith

-- The last entry of the way is none of those before it.
abbrev pub Once : (a high_map : ℕ) (m : ℕ → ℕ) → List ℕ → (pg : ℕ) → Type 0
Once a hm m [] pg = Unit {0}
Once a hm m (x ∷ []) pg = Unit {0}
Once a hm m (x ∷ y ∷ r) pg = (slot pg x ≢ a) × Once a hm m (y ∷ r) (table hm (m (slot pg x)))

-- the tables stand where they stood
abbrev pub SameTables : Paging → Paging → Type 0
SameTables s s' = (s'.high_map ≡ s.high_map) × (s'.pml ≡ s.pml)

entry_frame_lem :
    (i p : ℕ) (s : Paging) (f : ℕ) (s' : Paging)
    → entry_frame i p s ≡ some (f, s')
    → (s'.memory ≡ s.memory) × SameTables s s' × (i ≡ 3 → p ≢ 0 → f ≡ frame_of p)
unfolding entry_frame
entry_frame_lem i p s f s' e = ground arith

-- What a round of the loop over the layers has done to the memory
record Filling (i x pg p flags : ℕ) (s s' : Paging) : Type 0 where
  is_present : present (s'.memory (slot pg x)) ≡ true
  grows : Grows s.memory s'.memory
  others : (b : ℕ) → b ≢ slot pg x → s'.memory b ≡ s.memory b
  tables : SameTables s s'
  new_entry :
      present (s.memory (slot pg x)) ≡ false
      → i ≡ 3
      → p ≢ 0
      → s'.memory (slot pg x) ≡ entry flags (frame_of p)

-- a round that finds the entry present
kept :
    (i x pg p flags : ℕ) (s : Paging)
    → present (s.memory (slot pg x)) ≡ true
    → Filling i x pg p flags s s
kept i x pg p flags s e = record {
  is_present = e;
  grows = λ a h. refl;
  others = λ b h. refl;
  tables = (refl, refl);
  new_entry = λ h. cc;
}

-- a round that makes the entry
made :
    (i x pg p flags f : ℕ) (s s' : Paging)
    → present (s.memory (slot pg x)) ≡ false
    → (s'.memory ≡ s.memory) × SameTables s s' × (i ≡ 3 → p ≢ 0 → f ≡ frame_of p)
    → Filling i x pg p flags s (set_word (slot pg x) (entry flags f) s')
unfolding set_word
made i x pg p flags f s s' e (m, (h, r), g) =
    let self : (slot pg x == slot pg x) ≡ true = ground arith in
    record {
      is_present = rw self (entry-present flags f);
      grows = λ a q. elim (Bool-cases (a == slot pg x)) [
        | inl t ↦ let t' : a ≡ slot pg x = ground arith in absurd (cc (q, e, ap s.memory t'))
        | inr t ↦ rw t (ap (λ (k : ℕ → ℕ). k a) m)
      ];
      others = λ b ne.
          let t : (b == slot pg x) ≡ false = ground arith in rw t (ap (λ (k : ℕ → ℕ). k b) m);
      tables = (h, r);
      new_entry = λ _ j n. rw (self, g j n) refl;
    }

fill-Filling :
    (i x pg p flags : ℕ) (s s' : Paging)
    → fill i x pg p flags s ≡ some s'
    → Filling i x pg p flags s s'
unfolding fill
fill-Filling i x pg p flags s s' e = elim (Bool-cases (present (s.memory (slot pg x)))) [
  | inl t ↦
      let same : s ≡ s' = cc (rw t at e) in
      subst (λ (z : Paging). Filling i x pg p flags s z) same (kept i x pg p flags s t)
  | inr t ↦ elim (Option-cases (entry_frame i p s)) [
    | inl n ↦ absurd (cc (rw (t, n) at e))
    | inr ((f, s1), n) ↦
        let same : set_word (slot pg x) (entry flags f) s1 ≡ s' = cc (rw (t, n) at e) in
        subst (λ (z : Paging). Filling i x pg p flags s z) same
          (made i x pg p flags f s s1 t (entry_frame_lem i p s f s1 n))
  ]
]

-- What the loop over the layers has done
pub record Mapping (hm : ℕ) (ls : List ℕ) (pg p flags : ℕ) (s s' : Paging) : Type 0 where
  pub filled : Filled hm s'.memory ls pg
  pub grows : Grows s.memory s'.memory
  pub tables : SameTables s s'
  -- the last entry, where it was not present and is not one of those before it
  pub new_leaf :
      (a : ℕ)
      → leaf hm s'.memory ls pg ≡ a
      → present (s.memory a) ≡ false
      → Once a hm s'.memory ls pg
      → p ≢ 0
      → s'.memory a ≡ entry flags (frame_of p)

-- a round and the rounds after it
step :
    (i x y : ℕ) (r : List ℕ) (pg p flags : ℕ) (s s1 s' : Paging)
    → Filling i x pg p flags s s1
    → Mapping s1.high_map (y ∷ r) (table s1.high_map (s1.memory (slot pg x))) p flags s1 s'
    → Mapping s.high_map (x ∷ y ∷ r) pg p flags s s'
step i x y r pg p flags s s1 s' f m' =
    let here : s'.memory (slot pg x) ≡ s1.memory (slot pg x) = m'.grows (slot pg x) f.is_present in
    let m : Mapping s.high_map (y ∷ r) (table s.high_map (s1.memory (slot pg x))) p flags s1 s' =
      subst (λ (h : ℕ). Mapping h (y ∷ r) (table h (s1.memory (slot pg x))) p flags s1 s')
        f.tables.0 m' in
    record {
      filled = rw here (f.is_present, m.filled);
      grows = Grows-trans f.grows m.grows;
      tables = (m.tables.0 ∙ f.tables.0, m.tables.1 ∙ f.tables.1);
      new_leaf = λ a q absent once nz.
          let kept : s1.memory a ≡ s.memory a = f.others a (λ e. once.0 (sym e)) in
          m.new_leaf a (rw here at q) (ap present kept ∙ absent) (rw here at (once.1)) nz;
    }

pub map_layers-Mapping :
    (i : ℕ) (ls : List ℕ) (pg p flags : ℕ) (s s' : Paging)
    → 0 < length ls
    → i + length ls ≡ 4
    → map_layers i ls pg p flags s ≡ some s'
    → Mapping s.high_map ls pg p flags s s'
unfolding map_layers
map_layers-Mapping i [] pg p flags s s' some_left sum e = absurd (omega arith)
map_layers-Mapping i (x ∷ []) pg p flags s s' some_left sum e =
    elim (Option-cases (fill i x pg p flags s)) [
      | inl n ↦ absurd (cc (rw n at e))
      | inr (s1, n) ↦
          let same : s1 ≡ s' = cc (rw n at e) in
          let r : Filling i x pg p flags s s' =
            fill-Filling i x pg p flags s s' (n ∙ ap (λ (z : Paging). some z) same) in
          record {
            filled = (r.is_present, tt);
            grows = r.grows;
            tables = r.tables;
            new_leaf =
                λ a q absent once nz. rw (← q) (r.new_entry (rw (← q) at absent) (omega arith) nz);
          }
    ]
map_layers-Mapping i (x ∷ y ∷ r) pg p flags s s' some_left sum e =
    elim (Option-cases (fill i x pg p flags s)) [
      | inl n ↦ absurd (cc (rw n at e))
      | inr (s1, n) ↦
          let k : (i == 3) ≡ false = ground arith in
          step i x y r pg p flags s s1 s' (fill-Filling i x pg p flags s s1 n) (
            map_layers-Mapping (i + 1) (y ∷ r) (table s1.high_map (s1.memory (slot pg x))) p flags
              s1 s' (omega arith) (omega arith) (rw (n, k) at e))
    ]
