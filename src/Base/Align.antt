-- ===== src/Base/Align.antt =====
-- What ALIGN and PAGES compute.
use Prim.Native.Nat.{ℕ, zero, suc, ◌+◌, ◌-◌, ◌*◌, ◌/◌, ◌%◌, ◌^◌, ◌<◌, bit_and}
use mathlib.Core.Path.{◌≡◌, ap}
use native.Mathlib.Nat.{pow-suc, one-le-pow}
use native.Mathlib.Omega.{arith}
use wyrm_os.Base.Bits.{bit_and_step, bit_and-zero}
use wyrm_os.Base.Word.{align, pages, page_size, neg64}

-- the lowest `k` bits
low_bits : (k w : ℕ) → ℕ
low_bits zero w = 0
low_bits (suc k) w = w % 2 + 2 * low_bits k (w / 2)

bit_and-low_bits : (k w : ℕ) → bit_and w (2 ^ k - 1) ≡ low_bits k w
unfolding low_bits
bit_and-low_bits zero w = bit_and-zero w w (omega arith)
bit_and-low_bits (suc k) w =
    let half : (2 ^ suc k - 1) / 2 ≡ 2 ^ k - 1 = omega (arith, pow-suc 2 k, one-le-pow k 2) in
    let odd : (2 ^ suc k - 1) % 2 ≡ 1 = omega (arith, pow-suc 2 k, one-le-pow k 2) in
    omega (
      arith,
      bit_and_step w (2 ^ suc k - 1),
      odd,
      ap (λ (t : ℕ). bit_and (w / 2) t) half,
      bit_and-low_bits k (w / 2),
    )

low_bits_page : (w : ℕ) → low_bits 12 w ≡ w % 4096
unfolding low_bits
low_bits_page w = omega arith

low_bits_stack : (w : ℕ) → low_bits 4 w ≡ w % 16
unfolding low_bits
low_bits_stack w = omega arith

-- a sum that does not wrap around is rounded up
pub align_page : (v : ℕ) → v + 4095 < 2 ^ 64 → align v page_size ≡ (v + 4095) / 4096 * 4096
unfolding align
align_page v fits = omega (arith, bit_and-low_bits 12 (neg64 v), low_bits_page (neg64 v))

pub align_sixteen : (v : ℕ) → v + 15 < 2 ^ 64 → align v 16 ≡ (v + 15) / 16 * 16
unfolding align
align_sixteen v fits = omega (arith, bit_and-low_bits 4 (neg64 v), low_bits_stack (neg64 v))

pub pages_lem : (v : ℕ) → v + 4095 < 2 ^ 64 → pages v ≡ (v + 4095) / 4096
unfolding pages
pages_lem v fits = rw (align_page v fits) (omega arith)
