-- ===== src/Base/Bits.antt =====
-- The bits of a word, and what `|`, `&` and `~` do to them.
use Prim.Native.Nat.{
  ℕ, zero, suc, ◌+◌, ◌-◌, ◌*◌, ◌/◌, ◌%◌, ◌^◌, ◌≤◌, ◌<◌, min, max, digits, bitwise, bit_and, bit_or,
  bit_and-bitwise, bit_or-bitwise,
}
use mathlib.Core.Path.{◌≡◌, refl, ap, ◌∙◌}
use native.Mathlib.Nat.{le_refl, pow-suc}
use native.Mathlib.Omega.{arith}

-- bit `j` of `w`, 0 or 1
abbrev pub bit : ℕ → ℕ → ℕ
bit w zero = w % 2
bit w (suc j) = bit (w / 2) j

pub bit-le : (w j : ℕ) → bit w j ≤ 1
bit-le w zero = omega arith
bit-le w (suc j) = bit-le (w / 2) j

pub bit-zero : (j : ℕ) → bit 0 j ≡ 0
bit-zero zero = refl
bit-zero (suc j) = bit-zero j

-- One round more than a number needs changes nothing, and so any number of spare rounds.
spare_round :
    (z : ℕ → ℕ) (f : ℕ → ℕ → ℕ) (rounds x y : ℕ)
    → x ≤ rounds
    → digits z f (suc rounds) x y ≡ digits z f rounds x y
spare_round z f zero zero y enough = refl
spare_round z f zero (suc x) y enough = absurd (omega arith)
spare_round z f (suc rounds) zero y enough = refl
spare_round z f (suc rounds) (suc x) y enough =
    let half = spare_round z f rounds (suc x / 2) (y / 2) (omega arith) in
    ap (λ (t : ℕ). t * 2 + f (suc x % 2) (y % 2)) half

spare_rounds :
    (z : ℕ → ℕ) (f : ℕ → ℕ → ℕ) (more rounds x y : ℕ)
    → x ≤ rounds
    → digits z f (more + rounds) x y ≡ digits z f rounds x y
spare_rounds z f zero rounds x y enough =
    let same : 0 + rounds ≡ rounds = omega arith in rw same refl
spare_rounds z f (suc more) rounds x y enough =
    let next : suc more + rounds ≡ suc (more + rounds) = omega arith in
    rw next (spare_round z f (more + rounds) x y (omega arith))
    ∙ spare_rounds z f more rounds x y enough

halve :
    (z : ℕ → ℕ) (f : ℕ → ℕ → ℕ) (x y : ℕ)
    → bitwise z f (suc x) y ≡ bitwise z f (suc x / 2) (y / 2) * 2 + f (suc x % 2) (y % 2)
halve z f x y =
    let h : ℕ = suc x / 2 in
    let split : x ≡ (x - h) + h = omega arith in
    ap (λ (t : ℕ). t * 2 + f (suc x % 2) (y % 2))
      (ap (λ (t : ℕ). digits z f t h (y / 2)) split
        ∙ spare_rounds z f (x - h) h h (y / 2) (omega arith))

-- `&` and `|` by the lowest digit
pub bit_and_step : (x y : ℕ) → bit_and x y ≡ min (x % 2) (y % 2) + bit_and (x / 2) (y / 2) * 2
bit_and_step (suc x) y = simp bit_and-bitwise (omega (arith, halve (λ rest. 0) min x y))
bit_and_step zero y = simp bit_and-bitwise (omega arith)

pub bit_or_step : (x y : ℕ) → bit_or x y ≡ max (x % 2) (y % 2) + bit_or (x / 2) (y / 2) * 2
bit_or_step (suc x) y = simp bit_or-bitwise (omega (arith, halve (λ rest. rest) max x y))
bit_or_step zero y = simp bit_or-bitwise (omega arith)

pub bit-bit_or : (a b j : ℕ) → bit (bit_or a b) j ≡ max (bit a j) (bit b j)
bit-bit_or a b zero = omega (arith, bit_or_step a b)
bit-bit_or a b (suc j) =
    let e : bit_or a b / 2 ≡ bit_or (a / 2) (b / 2) = omega (arith, bit_or_step a b) in
    rw e (bit-bit_or (a / 2) (b / 2) j)

pub bit-bit_and : (a b j : ℕ) → bit (bit_and a b) j ≡ min (bit a j) (bit b j)
bit-bit_and a b zero = omega (arith, bit_and_step a b)
bit-bit_and a b (suc j) =
    let e : bit_and a b / 2 ≡ bit_and (a / 2) (b / 2) = omega (arith, bit_and_step a b) in
    rw e (bit-bit_and (a / 2) (b / 2) j)

pow-half : (j : ℕ) → 2 ^ suc j / 2 ≡ 2 ^ j
pow-half j = omega (arith, pow-suc 2 j)

pub bit-pow_self : (j : ℕ) → bit (2 ^ j) j ≡ 1
bit-pow_self zero = refl
bit-pow_self (suc j) = rw (pow-half j) (bit-pow_self j)

pub bit-pow_ne : (j k : ℕ) → (j ≡ k → ⊥) → bit (2 ^ j) k ≡ 0
bit-pow_ne zero zero ne = absurd (ne refl)
bit-pow_ne zero (suc k) ne = bit-zero k
bit-pow_ne (suc j) zero ne = omega (arith, pow-suc 2 j)
bit-pow_ne (suc j) (suc k) ne = rw (pow-half j) (bit-pow_ne j k (λ e. ne (omega arith)))

-- `~x` of an `n`-bit word
pub bit-complement : (n x k : ℕ) → x < 2 ^ n → k < n → bit (2 ^ n - 1 - x) k + bit x k ≡ 1
bit-complement zero x k h lt = absurd (omega arith)
bit-complement (suc n) x zero h lt = omega (arith, pow-suc 2 n)
bit-complement (suc n) x (suc k) h lt =
    let e : (2 ^ suc n - 1 - x) / 2 ≡ 2 ^ n - 1 - x / 2 = omega (arith, pow-suc 2 n) in
    rw e (bit-complement n (x / 2) k (omega (arith, pow-suc 2 n)) (omega arith))

pub bit_and-zero : (n a : ℕ) → a ≤ n → bit_and a 0 ≡ 0
bit_and-zero n zero h = omega (arith, bit_and_step 0 0, bit_and-bitwise 0 0)
bit_and-zero zero (suc a) h = absurd (omega arith)
bit_and-zero (suc n) (suc a) h =
    omega (arith, bit_and_step (suc a) 0, bit_and-zero n (suc a / 2) (omega arith))

-- `w & (1 << j)` is the bit in its place
pub bit_and-pow : (w j : ℕ) → bit_and w (2 ^ j) ≡ bit w j * 2 ^ j
bit_and-pow w zero = omega (arith, bit_and_step w 1, bit_and-zero (w / 2) (w / 2) (le_refl _))
bit_and-pow w (suc j) =
    let both : bit_and (w / 2) (2 ^ suc j / 2) ≡ bit (w / 2) j * 2 ^ j =
      rw (pow-half j) (bit_and-pow (w / 2) j) in
    omega (
      arith,
      bit_and_step w (2 ^ suc j),
      pow-suc 2 j,
      both,
      ap (λ (t : ℕ). bit (w / 2) j * t) (pow-suc 2 j),
    )
