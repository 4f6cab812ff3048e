-- ===== src/Libc/Number/Decimal.antt =====
-- atoi of lib/libc/stdlib/stdlib.c on strings of digits.
use wyrm_os.Base.{
  ℕ, ◌+◌, ◌-◌, ◌*◌, ◌/◌, ◌^◌, ◌≤◌, ◌<◌, ◌≡◌, ◌∙◌, refl, ap, true, false, ◌==◌, List, [], ◌∷◌,
  length, arith,
}
use native.Mathlib.Nat.{pow-suc}
use wyrm_os.Libc.Ctype.{isdigit}
use wyrm_os.Libc.Number.{u32, pass_digits, sum_back, atoi}

-- The digit of a character, as an int
abbrev pub digit : ℕ → ℕ
digit c = u32 (c + 2 ^ 32 - 48)

-- The number that digits behind `acc` stand for
abbrev pub value : (acc : ℕ) → List ℕ → ℕ
value acc [] = acc
value acc (c ∷ cs) = value (acc * 10 + digit c) cs

abbrev value_back : List ℕ → ℕ
value_back [] = 0
value_back (c ∷ cs) = digit c + 10 * value_back cs

abbrev pub Digits : List ℕ → Type 0
Digits [] = Unit
Digits (c ∷ cs) = (48 ≤ c) × (c ≤ 57) × Digits cs

mod_add_mul : (a b r : ℕ) → u32 (u32 a + u32 b * r) ≡ u32 (a + b * r)
mod_add_mul a b r =
    let split : b ≡ 2 ^ 32 * (b / 2 ^ 32) + u32 b = omega arith in
    omega (arith, ap (λ t. t * r) split)

sum_back_lem : (cs : List ℕ) (r e : ℕ) → r < 2 ^ 32 → sum_back cs r e ≡ u32 (r + e * value_back cs)
sum_back_lem [] r e small = omega arith
sum_back_lem (c ∷ cs) r e small =
    sum_back_lem cs (u32 (r + digit c * e)) (u32 (e * 10)) (omega arith)
    ∙ mod_add_mul (r + digit c * e) (e * 10) (value_back cs)
    ∙ omega arith

value-pass_digits :
    (cs passed : List ℕ)
    → Digits cs
    → value_back (pass_digits cs passed) ≡ value (value_back passed) cs
value-pass_digits [] passed d = refl
value-pass_digits (c ∷ cs) passed (low, high, d) =
    let e : isdigit c ≡ true = ground arith in
    let f : digit c + 10 * value_back passed ≡ value_back passed * 10 + digit c = omega arith in
    rw e (value-pass_digits cs (c ∷ passed) d ∙ ap (λ (t : ℕ). value t cs) f)

value_lem : (acc : ℕ) (cs : List ℕ) → value acc cs ≡ acc * 10 ^ length cs + value 0 cs
value_lem acc [] = omega arith
value_lem acc (c ∷ cs) = omega (
  arith,
  value_lem (acc * 10 + digit c) cs,
  value_lem (0 * 10 + digit c) cs,
  ap (λ t. acc * t) (pow-suc 10 (length cs)),
)

-- atoi of a string of digits is the number that they stand for, as far as an int holds it.
pub atoi-Digits : (c : ℕ) (cs : List ℕ) → Digits (c ∷ cs) → atoi (c ∷ cs) ≡ u32 (value 0 (c ∷ cs))
unfolding atoi
atoi-Digits c cs (low, high, d) =
    let minus : (c == 45) ≡ false = ground arith in
    let whole : Digits (c ∷ cs) = (low, high, d) in
    rw minus (
      sum_back_lem (pass_digits (c ∷ cs) []) 0 1 (omega arith)
      ∙ omega (arith, value-pass_digits (c ∷ cs) [] whole))

-- atoi of digits behind a minus sign takes the sign for a digit as well: it is three times the power
-- of ten, less the number, and not the number's negative.
pub atoi-minus :
    (cs : List ℕ) → Digits cs → u32 (atoi (45 ∷ cs) + value 0 cs) ≡ u32 (3 * 10 ^ length cs)
unfolding atoi
atoi-minus cs d = omega (
  arith,
  sum_back_lem (pass_digits cs (45 ∷ [])) 0 1 (omega arith),
  value-pass_digits cs (45 ∷ []) d,
  value_lem (digit 45 + 10 * 0) cs,
)
