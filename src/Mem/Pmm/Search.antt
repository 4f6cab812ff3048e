-- ===== src/Mem/Pmm/Search.antt =====
-- The scan of k_mem_pmm_alloc finds the first run of free frames that is long enough.
use wyrm_os.Base.{
  ℕ, zero, suc, ◌+◌, ◌-◌, ◌*◌, ◌≤◌, ◌<◌, ◌≡◌, ◌≢◌, refl, true, false, ◌==◌, leb, if◌then◌else◌,
  arith, Bool-cases, inl, inr, given, ap,
}
use native.Mathlib.Nat.{add-zero, zero-add}
use native.Mathlib.Decide.{dec_lt, dec_le}
use wyrm_os.Mem.Pmm.{Scan, run, hit, scan_bits, scan_words}
use wyrm_os.Mem.Pmm.Frames.{is_free, is_free-test, eq_of_test}

module _ (m : ℕ → ℕ) (base frames : ℕ) where
  -- the `frames` frames from `q` on are free
  abbrev pub Free : ℕ → Type 0
  Free q = (k : ℕ) → k < frames → is_free m (q + k) ≡ true

  -- what the scan knows before it reads frame `p`: a run of `n` free frames ends there, it cannot be
  -- extended downwards, and no long enough run ends before
  pub record Seen (p n frame : ℕ) : Type 0 where
    pub short : n < frames
    pub above : base + n ≤ p
    pub starts : n ≢ 0 → frame + n ≡ p
    pub free : (k : ℕ) → p ≤ k + n → k < p → is_free m k ≡ true
    pub maximal : (k : ℕ) → base ≤ k → k + n + 1 ≡ p → is_free m k ≡ false
    pub none_before : (q : ℕ) → base ≤ q → q + frames ≤ p → Free q → ⊥

  pub Found : ℕ → Type 0
  Found p = (q : ℕ) × (base ≤ q) × (q + frames ≤ p) × Free q

  -- the outcome of a scan up to frame `p`
  abbrev pub Outcome : ℕ → Scan → Type 0
  Outcome p (run n frame) = Seen p n frame
  Outcome p (hit q) = (base ≤ q) × (q + frames ≤ p) × Free q

  not-Free : (q k : ℕ) → Free q → q ≤ k → k < q + frames → is_free m k ≡ false → ⊥
  not-Free q k all le lt taken =
      let e : q + (k - q) ≡ k = omega arith in cc (all (k - q) (omega arith), ap (is_free m) e)

  Seen-free :
      (p n frame frame' : ℕ)
      → Seen p n frame
      → is_free m p ≡ true
      → n + 1 < frames
      → frame' ≡ (if n == 0 then p else frame)
      → Seen (p + 1) (n + 1) frame'
  Seen-free p n frame frame' s f lt e = record {
    short = lt;
    above = omega (arith, s.above);
    starts = λ ne. ground (arith, s.starts);
    free = λ k le lt'. elim (Bool-cases (k == p)) [
      | inl t ↦ rw (eq_of_test k p t) f
      | inr t ↦ s.free k (omega arith) (ground arith)
    ];
    maximal = λ k le e'. s.maximal k le (omega arith);
    none_before = λ q le le' all. elim (dec_le (q + frames) p) [
      | yes t ↦ s.none_before q le t all
      | no t ↦ elim (dec_lt (base + n) p) [
        | yes u ↦
            not-Free q (p - n - 1) all (omega (arith, s.short)) (omega (arith, s.short))
              (s.maximal (p - n - 1) (omega arith) (omega arith))
        | no u ↦ absurd (omega (arith, s.above))
      ]
    ];
  }

  Seen-taken :
      (p n frame frame' : ℕ)
      → Seen p n frame
      → is_free m p ≡ false
      → 0 < frames
      → Seen (p + 1) 0 frame'
  Seen-taken p n frame frame' s f lt = record {
    short = lt;
    above = omega (arith, s.above);
    starts = λ ne. absurd (ne refl);
    free = λ k le lt'. absurd (omega arith);
    maximal = λ k le e'. rw (e'' k e') f;
    none_before = λ q le le' all. elim (dec_le (q + frames) p) [
      | yes t ↦ s.none_before q le t all
      | no t ↦ not-Free q p all (omega arith) (omega arith) f
    ];
  }
    where
      e'' : (k : ℕ) → k + 0 + 1 ≡ p + 1 → k ≡ p
      e'' k e = omega arith

  -- the run is complete with frame `p`
  Seen-hit :
      (p n frame frame' : ℕ)
      → Seen p n frame
      → is_free m p ≡ true
      → frames ≤ n + 1
      → frame' ≡ (if n == 0 then p else frame)
      → (base ≤ frame') × (frame' + frames ≤ p + 1) × Free frame'
  Seen-hit p n frame frame' s f le e =
      let g : frame' + n ≡ p = ground (arith, s.starts) in
      (
        omega (arith, s.above),
        omega (arith, s.short),
        λ k lt. elim (dec_lt k n) [
          | yes t ↦ s.free (frame' + k) (omega (arith, s.short)) (omega (arith, s.short))
          | no t ↦ rw (last k lt t g) f
        ],
      )
    where
      last : (k : ℕ) → k < frames → (k < n → ⊥) → frame' + n ≡ p → frame' + k ≡ p
      last k lt t g = omega (arith, s.short)

  scan_bits-Outcome :
      (left i j n frame : ℕ)
      → j + left ≡ 64
      → Seen (j + i * 64) n frame
      → Outcome (i * 64 + 64) (scan_bits frames i (m i) left j n frame)
  unfolding scan_bits
  scan_bits-Outcome zero i j n frame e s =
      let e' : j + i * 64 ≡ i * 64 + 64 = omega arith in rw e' at s
  scan_bits-Outcome (suc left) i j n frame e s =
      rw (is_free-test m i j (omega arith)) (elim (Bool-cases (is_free m (j + i * 64))) [
        | inl t ↦ rw t (elim (Bool-cases (leb frames (n + 1))) [
          | inl u ↦ rw u (
              given (Seen-hit _ n frame _ s t (ground arith) refl) λ (a, b, c). (a, omega arith, c))
          | inr u ↦ rw u (
              scan_bits-Outcome left i (j + 1) (n + 1) _ (omega arith)
                (rw (next i j) (Seen-free _ n frame _ s t (ground arith) refl)))
        ])
        | inr t ↦
            rw (t, short_zero s.short)
              (scan_bits-Outcome left i (j + 1) 0 frame (omega arith)
                (rw (next i j) (Seen-taken _ n frame frame s t (omega (arith, s.short)))))
      ])
    where
      next : (i j : ℕ) → j + 1 + i * 64 ≡ j + i * 64 + 1
      next i j = omega arith

      short_zero : {n : ℕ} → n < frames → leb frames 0 ≡ false
      short_zero lt = ground arith

  -- the whole scan, from word `i` on
  pub scan_words-Outcome :
      (left i n frame : ℕ)
      → Seen (i * 64) n frame
      → Outcome ((i + left) * 64) (scan_words m frames left i n frame)
  unfolding scan_words
  scan_words-Outcome zero i n frame s = rw (add-zero i) s
  scan_words-Outcome (suc left) i n frame s =
      go (scan_bits frames i (m i) 64 0 n frame)
        (scan_bits-Outcome 64 i 0 n frame refl (rw zero-add s))
        (λ n' f' s'. scan_words-Outcome left (i + 1) n' f' s')
    where
      go :
          (r : Scan)
          → Outcome (i * 64 + 64) r
          → ((n' f' : ℕ)
              → Seen ((i + 1) * 64) n' f'
              → Outcome ((i + 1 + left) * 64) (scan_words m frames left (i + 1) n' f'))
          → Outcome
              ((i + suc left) * 64)
              (elim r [ run n' f' ↦ scan_words m frames left (i + 1) n' f' | hit f' ↦ hit f' ])
      go (run n' f') o next =
          let e : i * 64 + 64 ≡ (i + 1) * 64 = omega arith in
          let e' : i + 1 + left ≡ i + suc left = omega arith in rw e' at (next n' f' (rw e at o))
      go (hit f') o next = (o.0, omega (arith, o.1), o.2)

  -- at the start nothing has been seen
  pub Seen-start : 0 < frames → Seen base 0 0
  Seen-start lt = record {
    short = lt;
    above = omega arith;
    starts = λ ne. absurd (ne refl);
    free = λ k le lt'. absurd (omega arith);
    maximal = λ k le e. absurd (omega arith);
    none_before = λ q le le' all. absurd (omega arith);
  }
