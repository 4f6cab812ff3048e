-- ===== src/Mem/Slab/Sizes.antt =====
-- Size classes of kernel/mem/alloc.c.
use wyrm_os.Base.{
  ℕ, zero, suc, ◌-◌, ◌*◌, ◌/◌, ◌%◌, ◌^◌, ◌≤◌, ◌<◌, ◌≡◌, ◌≢◌, ◌⊎◌, ap, refl, inl, inr, false, ◌==◌,
  bit_and, arith, Bool-cases, given, ltb, leb,
}
use native.Mathlib.Nat.{pow-suc, pow-zero, pow-le-pow_right}
use wyrm_os.Base.Bits.{bit_and_step}
use wyrm_os.Mem.Heap.{max_slab, min_slab, bit_length, slab_for_size}

-- `n & n`
bit_and_self : (k n : ℕ) → n ≤ k → bit_and n n ≡ n
bit_and_self zero n le = let z : n ≡ 0 = omega arith in rw z (omega (arith, bit_and_step 0 0))
bit_and_self (suc k) n le = elim (Bool-cases (n == 0)) [
  | inl e ↦ let z : n ≡ 0 = ground arith in rw z (omega (arith, bit_and_step 0 0))
  | inr e ↦
      let pos : n ≢ 0 = λ z. ground arith in
      omega (arith, bit_and_step n n, bit_and_self k (n / 2) (omega arith))
]

bit_length-zero : (bits : ℕ) → bit_length bits 0 ≡ 0
unfolding bit_length
bit_length-zero zero = refl
bit_length-zero (suc k) = refl

-- `n & (n - 1)` is 0 at the power of two.
abbrev Power : (n j : ℕ) → Type 0
Power n j = ((n ≡ 2 ^ j) × (bit_and n (n - 1) ≡ 0)) ⊎ ((2 ^ j < n) × (bit_and n (n - 1) ≢ 0))

Power-double : (n j : ℕ) → 1 < n → 2 ^ j ≤ n / 2 → Power (n / 2) j → Power n (suc j)
Power-double n j more low power = elim (Bool-cases (n % 2 == 0)) [
  | inl even ↦
      let z : n % 2 ≡ 0 = ground arith in
      let e : (n - 1) / 2 ≡ n / 2 - 1 = omega arith in
      let step : bit_and n (n - 1) ≡ bit_and (n / 2) (n / 2 - 1) * 2 =
        omega (arith, bit_and_step n (n - 1), ap (bit_and (n / 2)) e) in
      elim power [
        | inl (eq, zero') ↦ inl (omega (arith, pow-suc 2 j), omega arith)
        | inr (lt, nz) ↦ inr (omega (arith, pow-suc 2 j), λ q. nz (omega arith))
      ]
  | inr odd ↦
      let z : n % 2 ≢ 0 = λ q. ground arith in
      let e : (n - 1) / 2 ≡ n / 2 = omega arith in
      let step : bit_and n (n - 1) ≡ n / 2 * 2 = omega (
        arith,
        bit_and_step n (n - 1),
        ap (bit_and (n / 2)) e,
        bit_and_self (n / 2) (n / 2) (omega arith),
      ) in
      inr (omega (arith, pow-suc 2 j), λ q. omega arith)
]

-- The number of bits of a number that is not 0
bit_length_lem :
    (bits n : ℕ)
    → 0 < n
    → n < 2 ^ bits
    → (j : ℕ) × (bit_length bits n ≡ suc j) × (2 ^ j ≤ n) × (n < 2 ^ suc j) × Power n j
unfolding bit_length
bit_length_lem zero n pos small = absurd (omega (arith, pow-zero 2))
bit_length_lem (suc k) n pos small =
    let e : (n == 0) ≡ false = ground arith in
    elim (Bool-cases (n == 1)) [
      | inl one ↦
          let o : n ≡ 1 = ground arith in
          (
            0,
            rw (bit_length, o) (ap suc (bit_length-zero k)),
            omega arith,
            omega arith,
            inl (omega arith, rw o (omega (arith, bit_and_step 1 0, bit_and_step 0 0))),
          )
      | inr more ↦
          let two : 1 < n = ground arith in
          given (bit_length_lem k (n / 2) (omega arith) (omega (arith, pow-suc 2 k)))
            λ (j, len, low, high, power). (
              suc j,
              rw (bit_length, e, len) refl,
              omega (arith, pow-suc 2 j),
              omega (arith, pow-suc 2 j, pow-suc 2 (suc j)),
              Power-double n j two low power,
            )
    ]

pow-lt : (j k : ℕ) → 2 ^ j < 2 ^ k → j < k
pow-lt j k lt = elim (Bool-cases (ltb j k)) [
  | inl e ↦ ground arith
  | inr e ↦
      let ge : k ≤ j = ground arith in
      let le : 2 ^ k ≤ 2 ^ j = pow-le-pow_right (omega arith) ge in absurd (omega arith)
]

abbrev Least : (size k : ℕ) → Type 0
Least size k =
    (min_slab ≤ k) × (k ≤ max_slab) × (size ≤ 2 ^ k) × ((k ≡ min_slab) ⊎ (2 ^ (k - 1) < size))

Least-power : (size j : ℕ) → 8 < size → size ≤ 2 ^ max_slab → size ≡ 2 ^ j → Least size (suc j - 1)
Least-power size j more small eq =
    let three : 3 < j = pow-lt 3 j (omega arith) in
    let ten : j < 11 = pow-lt j 11 (omega arith) in
    let same : suc j - 1 ≡ j = omega arith in
    let up : suc (j - 1) ≡ j = omega arith in
    rw same (
      omega arith,
      omega arith,
      omega arith,
      inr (omega (arith, pow-suc 2 (j - 1), ap (λ (t : ℕ). 2 ^ t) up)),
    )

Least-between :
    (size j : ℕ)
    → 8 < size
    → size ≤ 2 ^ max_slab
    → 2 ^ j < size
    → size < 2 ^ suc j
    → Least size (suc j - 0)
Least-between size j more small low high =
    let three : 3 < suc j = pow-lt 3 (suc j) (omega arith) in
    let ten : j < 10 = pow-lt j 10 (omega arith) in
    let same : suc j - 0 ≡ suc j = omega arith in
    let down : suc j - 1 ≡ j = omega arith in
    rw same (omega arith, omega arith, omega arith, inr (rw down low))

-- slab_for_size of at most 1024 bytes is the least power of two from 8 on that holds them.
pub slab_for_size-least :
    (size : ℕ)
    → 0 < size
    → size ≤ 2 ^ max_slab
    → (min_slab ≤ slab_for_size size)
      × (slab_for_size size ≤ max_slab)
      × (size ≤ 2 ^ slab_for_size size)
      × ((slab_for_size size ≡ min_slab) ⊎ (2 ^ (slab_for_size size - 1) < size))
unfolding slab_for_size
slab_for_size-least size pos small =
    let fits : ltb (2 ^ max_slab) size ≡ false = ground arith in
    elim (Bool-cases (leb size (2 ^ min_slab))) [
      | inl e ↦ rw (slab_for_size, fits, e) (omega arith, omega arith, ground arith, inl refl)
      | inr e ↦ given (bit_length_lem 64 size pos (omega arith)) λ (j, len, low, high, power).
          elim power [
            | inl (eq, and') ↦
                rw (slab_for_size, fits, e, len, and') (Least-power size j (ground arith) small eq)
            | inr (lt, and') ↦
                let n : (bit_and size (size - 1) == 0) ≡ false = ground arith in
                rw (slab_for_size, fits, e, len, n)
                  (Least-between size j (ground arith) small lt high)
          ]
    ]
