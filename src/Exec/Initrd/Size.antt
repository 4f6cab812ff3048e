-- ===== src/Exec/Initrd/Size.antt =====
-- __get_size: octal numbers.
use wyrm_os.Base.{ℕ, zero, suc, ◌+◌, ◌*◌, ◌/◌, ◌%◌, ◌^◌, ◌<◌, ◌≡◌, ◌∙◌, ap, arith}
use native.Mathlib.Nat.{pow-suc}
use wyrm_os.Base.Word.{u64}
use wyrm_os.Libc.Bytes.{Bytes}
use wyrm_os.Exec.Initrd.{digit_value, size_loop, get_size}

-- The `j` bytes at `p` are the digits of `n` in base 8.
abbrev pub Octal : Bytes → (p j n : ℕ) → Type 0
Octal m p zero n = n ≡ 0
Octal m p (suc j) n = (m (p + j) ≡ 48 + n % 8) × Octal m p j (n / 8)

digit_value_lem : (d : ℕ) → d < 8 → digit_value (48 + d) ≡ d
unfolding digit_value
digit_value_lem d lt = ground arith

-- The places do not wrap around.
abbrev Places : (c j : ℕ) → Type 0
Places c zero = Unit {0}
Places c (suc j) = (c * 8 < 2 ^ 64) × Places (c * 8) j

size_loop-Octal :
    (m : Bytes) (p j c s n : ℕ)
    → Octal m p j n
    → Places c j
    → s + c * n < 2 ^ 64
    → size_loop m p j c s ≡ s + c * n
unfolding size_loop
size_loop-Octal m p zero c s n z places fits = omega (arith, ap (λ (t : ℕ). c * t) z)
size_loop-Octal m p (suc j) c s n (d, rest) (small, places) fits =
    let parts : c * n ≡ 8 * (c * (n / 8)) + (n % 8) * c =
      let e : n ≡ 8 * (n / 8) + n % 8 = omega arith in omega (arith, ap (λ (t : ℕ). c * t) e) in
    let place : u64 (c * 8) ≡ c * 8 = omega arith in
    let sum : u64 (s + u64 (n % 8 * c)) ≡ s + n % 8 * c = omega arith in
    rw (d, digit_value_lem (n % 8) (omega arith), place, sum)
      (size_loop-Octal m p j (c * 8) (s + n % 8 * c) (n / 8) rest places (omega arith)
        ∙ omega arith)

Octal-lt : (m : Bytes) (p j n : ℕ) → Octal m p j n → n < 8 ^ j
Octal-lt m p zero n z = omega arith
Octal-lt m p (suc j) n (d, rest) = omega (arith, Octal-lt m p j (n / 8) rest, pow-suc 8 j)

-- __get_size reads a number back from its eleven digits in base 8.
pub get_size-Octal : (m : Bytes) (p n : ℕ) → Octal m p 11 n → get_size m p ≡ n
unfolding get_size
get_size-Octal m p n o =
    let lt : n < 8 ^ 11 = Octal-lt m p 11 n o in
    size_loop-Octal m p 11 1 0 n o (omega arith) (omega arith) ∙ omega arith
