-- ===== src/Mem/Pmm/Alloc.antt =====
-- k_mem_pmm_alloc: what it returns, when it panics, and what it forgets.
use wyrm_os.Base.{
  ℕ, zero, suc, ◌+◌, ◌-◌, ◌*◌, ◌/◌, ◌^◌, ◌≤◌, ◌<◌, ◌≡◌, ◌≢◌, ◌↔◌, refl, true, false, not, ◌&&◌,
  ◌||◌, Option, none, some, leb, if◌then◌else◌, arith, Bool-cases, inl, inr, given, ap, ◌∙◌,
}
use mathlib.Core.Path.{sym}
use wyrm_os.Base.Word.{addr_of, frame_of}
use wyrm_os.Mem.Pmm.{Pmm, Scan, run, hit, alloc, mark_frame, mark_region, clear_frames, skip_full}
use wyrm_os.Mem.Pmm.Frames.{is_free}
use wyrm_os.Mem.Pmm.Mark.{in_range, is_free-clear_frames, mark_region-is_free, mark_frame-inside}
use wyrm_os.Mem.Pmm.Search.{Free, Outcome, Seen-start, scan_words-Outcome}

-- the frames that the scan goes through
abbrev pub scan_start : Pmm → ℕ
scan_start s = s.free_index * 64

-- `frames` free frames stand in a row at `q`, between the scan's start and the bitmap's end
abbrev pub HasRun : Pmm → ℕ → ℕ → Type 0
HasRun s frames q =
    (scan_start s ≤ q) × (q + frames ≤ s.size * 64) × Free s.bitmap (scan_start s) frames q

-- the state after `frames` frames from `q` on were taken out of `s`
abbrev pub Taken : Pmm → ℕ → ℕ → Pmm → Type 0
Taken s frames q s' =
    ((g : ℕ) → is_free s'.bitmap g ≡ (not (in_range q frames g) && is_free s.bitmap g))
    × (s'.size ≡ s.size)
    × (s'.initialized ≡ s.initialized)

-- the outcome of an allocation
pub data Allocated (s : Pmm) (frames : ℕ) : Option (ℕ × Pmm) → Type 0 where
  took :
      {a : ℕ} {s' : Pmm} (q : ℕ)
      → HasRun s frames q
      → a ≡ addr_of q
      → Taken s frames q s'
      → Allocated s frames (some (a, s'))
  panics : ((q : ℕ) → HasRun s frames q → ⊥) → Allocated s frames none

finish :
    (s : Pmm) (frames : ℕ) (r : Scan)
    → Outcome s.bitmap (scan_start s) frames (s.size * 64) r
    → Allocated s frames (elim r [
      | run _ _ ↦ none
      | hit frame ↦
          let bitmap = clear_frames s.bitmap frame frames in
          let i = skip_full bitmap (s.size - s.free_index) s.free_index in
          let i' = if leb s.size i then 0 else i in
          let i'' = skip_full bitmap (s.size - i') i' in
          some (addr_of frame, record s { bitmap = bitmap; free_index = i'' })
    ])
finish s frames (run n f) o = panics (λ q (a, b, c). o.none_before q a b c)
finish s frames (hit q) o =
    took q (o.0, o.1, o.2) refl (λ g. is_free-clear_frames s.bitmap q frames g, refl, refl)

alloc-Allocated : (s : Pmm) (frames : ℕ) → 0 < frames → Allocated s frames (alloc s frames)
unfolding alloc
alloc-Allocated s frames pos = elim (Bool-cases (leb s.size s.free_index)) [
  | inl e ↦ rw e (panics (λ q (a, b, c). ground arith))
  | inr e ↦ rw e (
      finish s frames _ (
        rw (total s e) at (
          scan_words-Outcome s.bitmap (scan_start s) frames (s.size - s.free_index) s.free_index 0 0
            (Seen-start s.bitmap (scan_start s) frames pos))))
]
  where
    total :
        (s : Pmm)
        → leb s.size s.free_index ≡ false
        → s.free_index + (s.size - s.free_index) ≡ s.size
    total s e = ground arith

-- What k_mem_pmm_alloc returns is the address of the first of `frames` frames in a row that were
-- free; afterwards exactly these are taken, and the other frames are as before.
pub alloc-HasRun :
    (s : Pmm) (frames : ℕ) {a : ℕ} {s' : Pmm}
    → 0 < frames
    → alloc s frames ≡ some (a, s')
    → (q : ℕ) × HasRun s frames q × (a ≡ addr_of q) × Taken s frames q s'
alloc-HasRun s frames {a} {s'} pos e = go (alloc s frames) (alloc-Allocated s frames pos) e
  where
    go :
        (r : Option (ℕ × Pmm))
        → Allocated s frames r
        → r ≡ some (a, s')
        → (q : ℕ) × HasRun s frames q × (a ≡ addr_of q) × Taken s frames q s'
    go none (panics h) e = cc
    go (some (b, t)) (took q h f g) e =
        let e' : ◌≡◌ {A = ℕ × Pmm} (b, t) (a, s') = cc in
        (q, h, ap (λ (x : ℕ × Pmm). x.0) (sym e') ∙ f, rw (ap (λ (x : ℕ × Pmm). x.1) e') at g)

-- k_mem_pmm_alloc panics exactly when no run of that many free frames stands between the first word
-- that it looks at and the end of the bitmap.
pub alloc-none_iff :
    (s : Pmm) (frames : ℕ)
    → 0 < frames
    → (alloc s frames ≡ none) ↔ ((q : ℕ) → HasRun s frames q → ⊥)
alloc-none_iff s frames pos = (
  λ e. to (alloc s frames) (alloc-Allocated s frames pos) e,
  λ h. from (alloc s frames) (alloc-Allocated s frames pos) h,
)
  where
    to : (r : Option (ℕ × Pmm)) → Allocated s frames r → r ≡ none → (q : ℕ) → HasRun s frames q → ⊥
    to none (panics h) e = h
    to (some x) a e = absurd (cc)

    from :
        (r : Option (ℕ × Pmm)) → Allocated s frames r → ((q : ℕ) → HasRun s frames q → ⊥) → r ≡ none
    from none a h = refl
    from (some x) (took q found f g) h = absurd (h q found)

-- Giving an allocation back by k_mem_pmm_mark_region makes the same frames free as before it.
pub mark_region-alloc :
    (s : Pmm) (frames : ℕ) {a : ℕ} {s' : Pmm}
    → 0 < frames
    → s.initialized ≡ true
    → s.size * 64 ≤ 2 ^ 52
    → alloc s frames ≡ some (a, s')
    → (g : ℕ) → is_free (mark_region s' (frame_of a) frames).bitmap g ≡ is_free s.bitmap g
unfolding frame_of addr_of
mark_region-alloc s frames {a} {s'} pos i fits e g =
    given (alloc-HasRun s frames pos e) λ (q, (low, high, free), f, (taken, size, init)).
      let back : a / 2 ^ 12 ≡ q = omega arith in
      rw back (
        given (mark_region-is_free s' q frames (init ∙ i) (omega arith))
          λ (free', _, _). free' g ∙ rw taken (restore g q free))
  where
    restore :
        (g q : ℕ)
        → Free s.bitmap (scan_start s) frames q
        → (in_range q frames g || (not (in_range q frames g) && is_free s.bitmap g))
          ≡ is_free s.bitmap g
    restore g q free = elim (Bool-cases (in_range q frames g)) [
      | inl t ↦
          let e' : q + (g - q) ≡ g = ground arith in
          rw t (cc (free (g - q) (ground arith), ap (is_free s.bitmap) e'))
      | inr t ↦ rw t
    ]

module _ (s : Pmm) (f : ℕ) (i : s.initialized ≡ true) (below : f / 64 < s.free_index)
    (inside : s.free_index < s.size) (holds : s.bitmap s.free_index ≢ 0) where
  -- a frame marked below the word where the scan starts does not move that word
  mark_frame-below :
      ((mark_frame s f).0.free_index ≡ s.free_index)
      × ((mark_frame s f).0.bitmap s.free_index ≡ s.bitmap s.free_index)
  unfolding mark_frame
  mark_frame-below = (ground arith, ground arith)

mark_region-below :
    (s : Pmm) (f n : ℕ)
    → s.initialized ≡ true
    → f + n ≤ scan_start s
    → s.free_index < s.size
    → s.bitmap s.free_index ≢ 0
    → (mark_region s f n).free_index ≡ s.free_index
unfolding mark_region
mark_region-below s f zero i below inside holds = refl
mark_region-below s f (suc n) i below inside holds =
    given (mark_frame-inside s f i (omega arith)) λ (_, size, i', _).
      given (mark_frame-below s f i (omega arith) inside holds) λ (idx, word).
        mark_region-below (mark_frame s f).0 (f + 1) n i' (rw idx (omega arith))
          (rw (idx, size) inside) (rw (idx, word) holds)
        ∙ idx

-- Frames freed below the word where the scan starts are not found again: where that word still has
-- a free frame and `frames` frames cannot be had, they cannot be had after any region below is
-- freed either, however long it is.
pub alloc-none_forgotten :
    (s : Pmm) (frames f n : ℕ)
    → 0 < frames
    → s.initialized ≡ true
    → s.free_index < s.size
    → s.bitmap s.free_index ≢ 0
    → f + n ≤ scan_start s
    → alloc s frames ≡ none
    → alloc (mark_region s f n) frames ≡ none
alloc-none_forgotten s frames f n pos i inside holds below e =
    given (mark_region-is_free s f n i (omega arith)) λ (free, size, _).
      given (mark_region-below s f n i below inside holds) λ idx.
        (alloc-none_iff (mark_region s f n) frames pos).1 λ q (low, high, all).
          (alloc-none_iff s frames pos).0 e q (
            rw idx at low,
            rw size at high,
            λ k lt. above s f n q k below (rw idx at low) (sym (free (q + k)) ∙ all k lt),
          )
  where
    above :
        (s : Pmm) (f n q k : ℕ)
        → f + n ≤ scan_start s
        → scan_start s ≤ q
        → (in_range f n (q + k) || is_free s.bitmap (q + k)) ≡ true
        → is_free s.bitmap (q + k) ≡ true
    above s f n q k below low t = let e : in_range f n (q + k) ≡ false = ground arith in rw e at t
