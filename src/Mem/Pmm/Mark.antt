-- ===== src/Mem/Pmm/Mark.antt =====
-- k_mem_pmm_mark_frame and k_mem_pmm_mark_region free frames, the clearing loop of k_mem_pmm_alloc
-- takes them.
use wyrm_os.Base.{
  ℕ, zero, suc, ◌+◌, ◌*◌, ◌/◌, ◌%◌, ◌^◌, ◌≤◌, ◌<◌, ◌≡◌, ◌⊎◌, refl, Bool, true, false, not, ◌&&◌,
  ◌||◌, bit_and, bit_or, ◌==◌, ltb, leb, arith, Bool-cases, inl, inr, given, ◌∙◌,
}
use wyrm_os.Base.Word.{not64}
use wyrm_os.Mem.Pmm.{Pmm, write, mark_frame, mark_region, clear_frames}
use wyrm_os.Mem.Pmm.Frames.{is_free, is_free-mark, is_free-take}

-- `g` is one of the `n` frames from `f` on
abbrev pub in_range : ℕ → ℕ → ℕ → Bool
in_range f n g = leb f g && ltb g (f + n)

in_range-suc : (f n g : ℕ) → in_range f (suc n) g ≡ ((g == f) || in_range (f + 1) n g)
in_range-suc f n g = ground arith

in_range-zero : (f g : ℕ) → in_range f 0 g ≡ false
in_range-zero f g = ground arith

-- The clearing loop takes exactly the frames of its range.
pub is_free-clear_frames :
    (m : ℕ → ℕ) (f n g : ℕ) → is_free (clear_frames m f n) g ≡ (not (in_range f n g) && is_free m g)
unfolding clear_frames
is_free-clear_frames m f zero g = rw (in_range-zero f g)
is_free-clear_frames m f (suc n) g = rw (in_range-suc f n g) (
    is_free-clear_frames (write m (f / 64) (bit_and (m (f / 64)) (not64 (2 ^ (f % 64))))) (f + 1) n
      g
    ∙ rw (is_free-take m f g) (bools (in_range (f + 1) n g) (g == f) (is_free m g)))
  where
    bools : (a b c : Bool) → (not a && (not b && c)) ≡ (not (b || a) && c)
    bools true true c = refl
    bools true false c = refl
    bools false true c = refl
    bools false false c = refl

ltb_of_le : (a b : ℕ) → b ≤ a → ltb a b ≡ false
ltb_of_le a b le = ground arith

module _ (s : Pmm) (f : ℕ) where
  -- k_mem_pmm_mark_frame either frees its frame and no other, or is refused: then the manager is
  -- initialised, the frame's word lies beyond the bitmap, and nothing changes.
  pub mark_frame_lem :
      (((mark_frame s f).1 ≡ true)
        × ((g : ℕ) → is_free (mark_frame s f).0.bitmap g ≡ ((g == f) || is_free s.bitmap g)))
      ⊎ (((mark_frame s f).1 ≡ false)
          × ((mark_frame s f).0 ≡ s)
          × (s.initialized ≡ true)
          × (s.size < f / 64))
  unfolding mark_frame
  mark_frame_lem = elim (Bool-cases (ltb s.size (f / 64) && s.initialized)) [
    | inl e ↦ inr (rw e, rw e, ground arith, ground arith)
    | inr e ↦ inl (rw e, rw e (λ g. is_free-mark s.bitmap f g))
  ]

  -- Within the bitmap of an initialised manager it always succeeds.
  pub mark_frame-inside :
      s.initialized ≡ true
      → f / 64 ≤ s.size
      → ((mark_frame s f).1 ≡ true)
        × ((mark_frame s f).0.size ≡ s.size)
        × ((mark_frame s f).0.initialized ≡ true)
        × ((mark_frame s f).0.bitmap
            ≡ write s.bitmap (f / 64) (bit_or (s.bitmap (f / 64)) (2 ^ (f % 64))))
  unfolding mark_frame
  mark_frame-inside i le = given (ltb_of_le s.size (f / 64) le) λ e. rw e (refl, refl, i, refl)

-- k_mem_pmm_mark_region of frames within the bitmap of an initialised manager frees exactly these,
-- and keeps the size.
pub mark_region-is_free :
    (s : Pmm) (f n : ℕ)
    → s.initialized ≡ true
    → f + n ≤ (s.size + 1) * 64
    → ((g : ℕ) → is_free (mark_region s f n).bitmap g ≡ (in_range f n g || is_free s.bitmap g))
      × ((mark_region s f n).size ≡ s.size)
      × ((mark_region s f n).initialized ≡ true)
unfolding mark_region
mark_region-is_free s f zero i le = (λ g. rw (in_range-zero f g), refl, i)
mark_region-is_free s f (suc n) i le =
    given (mark_frame-inside s f i (omega arith)) λ (done, size, i', bits).
      given (mark_region-is_free (mark_frame s f).0 (f + 1) n i' (rw size (omega arith)))
        λ (free, size', i''). (
          λ g.
              free g
              ∙ rw (bits, is_free-mark s.bitmap f g, in_range-suc f n g)
                  (bools (g == f) (in_range (f + 1) n g) (is_free s.bitmap g)),
          size' ∙ size,
          i'',
        )
  where
    bools : (a b c : Bool) → (b || (a || c)) ≡ ((a || b) || c)
    bools true true c = refl
    bools true false c = refl
    bools false true c = refl
    bools false false c = refl

module _ (s : Pmm) (f : ℕ) (i : s.initialized ≡ true) where
  -- an initialised manager stays so, and its bitmap keeps its size
  pub mark_frame_ready :
      ((mark_frame s f).0.initialized ≡ true) × ((mark_frame s f).0.size ≡ s.size)
  unfolding mark_frame
  mark_frame_ready = ground arith

-- a free frame stays free
pub mark_frame_kept :
    (s : Pmm) (f g : ℕ) → is_free s.bitmap g ≡ true → is_free (mark_frame s f).0.bitmap g ≡ true
mark_frame_kept s f g h = elim (mark_frame_lem s f) [
  | inl (_, free) ↦ free g ∙ or (g == f) _ h
  | inr (_, same, _, _) ↦ rw same h
]
  where
    or : (a b : Bool) → b ≡ true → (a || b) ≡ true
    or true b h = refl
    or false b h = h

-- a frame within the bitmap is free afterwards
pub mark_frame_self :
    (s : Pmm) (f : ℕ) → f / 64 ≤ s.size → is_free (mark_frame s f).0.bitmap f ≡ true
mark_frame_self s f le = elim (mark_frame_lem s f) [
  | inl (_, free) ↦ let self : (f == f) ≡ true = ground arith in free f ∙ rw self refl
  | inr (_, _, _, beyond) ↦ absurd (omega arith)
]

-- Frames behind the bitmap of an initialised manager are refused.
pub mark_region-beyond :
    (s : Pmm) (f n : ℕ) → s.initialized ≡ true → s.size < f / 64 → mark_region s f n ≡ s
unfolding mark_region mark_frame
mark_region-beyond s f zero done beyond = refl
mark_region-beyond s f (suc n) done beyond =
    let refused : (ltb s.size (f / 64) && s.initialized) ≡ true = ground arith in
    rw refused (mark_region-beyond s (f + 1) n done (omega arith))
