-- ===== src/Mem/Pmm/Frames.antt =====
-- The frames of the bitmap: what mark_frame and clear_frames do to them.
use wyrm_os.Base.{
  ℕ, zero, suc, ◌+◌, ◌*◌, ◌/◌, ◌%◌, ◌^◌, ◌≤◌, ◌<◌, ◌≡◌, Bool, true, false, not, ◌&&◌, ◌||◌, bit_and,
  bit_or, ◌==◌, arith, Bool-cases, inl, inr, given, ap,
}
use wyrm_os.Base.Bits.{
  bit, bit-le, bit-bit_or, bit-bit_and, bit-pow_self, bit-pow_ne, bit-complement, bit_and-pow,
}
use native.Mathlib.Nat.{one-le-pow, pow-suc, pow-le-pow_right}
use wyrm_os.Base.Word.{not64}
use wyrm_os.Mem.Pmm.{write}

-- frame `f` is free in the bitmap `m`
abbrev pub is_free : (ℕ → ℕ) → ℕ → Bool
is_free m f = not (bit (m (f / 64)) (f % 64) == 0)

pub eq_of_test : (a b : ℕ) → (a == b) ≡ true → a ≡ b
eq_of_test a b e = ground arith

self_test : (a : ℕ) → (a == a) ≡ true
self_test a = ground arith

pow-lt-u64 : (j : ℕ) → j < 64 → 2 ^ j < 2 ^ 64
pow-lt-u64 j lt = omega (
  arith,
  pow-le-pow_right {n = 2} (omega arith) {i = suc j} {j = 64} lt,
  pow-suc 2 j,
  one-le-pow j 2,
)

times-pow : (b j : ℕ) → b ≤ 1 → (b * 2 ^ j == 0) ≡ (b == 0)
times-pow zero j le = ground arith
times-pow (suc zero) j le = given (one-le-pow j 2) λ p. ground (arith, p)
times-pow (suc (suc b)) j le = absurd (omega arith)

-- the test of the scan is the freeness of the frame that it stands at
pub is_free-test :
    (m : ℕ → ℕ) (i j : ℕ) → j < 64 → not (bit_and (m i) (2 ^ j) == 0) ≡ is_free m (j + i * 64)
is_free-test m i j lt =
    let e : (j + i * 64) / 64 ≡ i = omega arith in
    let f : (j + i * 64) % 64 ≡ j = omega arith in
    rw (e, f, bit_and-pow (m i) j, times-pow (bit (m i) j) j (bit-le (m i) j))

same_bit : (f g : ℕ) → g / 64 ≡ f / 64 → (g % 64 == f % 64) ≡ (g == f)
same_bit f g e = elim (Bool-cases (g == f)) [ inl p ↦ ground arith | inr p ↦ ground arith ]

other_word : (f g : ℕ) → (g / 64 == f / 64) ≡ false → (g == f) ≡ false
other_word f g e = elim (Bool-cases (g == f)) [
  | inl p ↦ given (eq_of_test g f p) λ q. cc (e, ap (λ x. x / 64 == f / 64) q, self_test (f / 64))
  | inr p ↦ p
]

bit-set : (w j k : ℕ) → not (bit (bit_or w (2 ^ j)) k == 0) ≡ ((k == j) || not (bit w k == 0))
bit-set w j k = elim (Bool-cases (k == j)) [
  | inl e ↦
      given (eq_of_test k j e)
        λ p. rw (p, bit-bit_or w (2 ^ j) j, bit-pow_self j) (ground (arith, bit-le w j))
  | inr e ↦
      rw (e, bit-bit_or w (2 ^ j) k, bit-pow_ne j k (λ p. ground arith))
        (ap (λ b. not (b == 0)) (omega arith))
]

bit-clear :
    (w j k : ℕ)
    → j < 64
    → k < 64
    → not (bit (bit_and w (not64 (2 ^ j))) k == 0) ≡ (not (k == j) && not (bit w k == 0))
bit-clear w j k hj hk = elim (Bool-cases (k == j)) [
  | inl e ↦ given (eq_of_test k j e) λ p.
      rw (e, p, bit-bit_and w (not64 (2 ^ j)) j)
        (ground (arith, bit-complement 64 (2 ^ j) j (pow-lt-u64 j hj) hj, bit-pow_self j))
  | inr e ↦
      rw (e, bit-bit_and w (not64 (2 ^ j)) k)
        (ap (λ b. not (b == 0))
          (omega (
            arith,
            bit-complement 64 (2 ^ j) k (pow-lt-u64 j hj) hk,
            bit-pow_ne j k (λ p. ground arith),
            bit-le w k,
          )))
]

-- `|=` makes one frame free
pub is_free-mark :
    (m : ℕ → ℕ) (f g : ℕ)
    → is_free (write m (f / 64) (bit_or (m (f / 64)) (2 ^ (f % 64)))) g ≡ ((g == f) || is_free m g)
is_free-mark m f g = elim (Bool-cases (g / 64 == f / 64)) [
  | inl e ↦
      rw (
        e,
        bit-set (m (f / 64)) (f % 64) (g % 64),
        same_bit f g (eq_of_test _ _ e),
        eq_of_test _ _ e,
      )
  | inr e ↦ rw (e, other_word f g e)
]

-- `&= ~` takes one frame
pub is_free-take :
    (m : ℕ → ℕ) (f g : ℕ)
    → is_free (write m (f / 64) (bit_and (m (f / 64)) (not64 (2 ^ (f % 64))))) g
      ≡ (not (g == f) && is_free m g)
is_free-take m f g = elim (Bool-cases (g / 64 == f / 64)) [
  | inl e ↦ rw (
    e,
    bit-clear (m (f / 64)) (f % 64) (g % 64) (omega arith) (omega arith),
    same_bit f g (eq_of_test _ _ e),
    eq_of_test _ _ e,
  )
  | inr e ↦ rw (e, other_word f g e)
]
