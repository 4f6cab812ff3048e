-- ===== src/Libc/Number.antt =====
-- abs, atoi and atexit of lib/libc/stdlib/stdlib.c. An `int` is its pattern of 32 bits, with
-- arithmetic that wraps around.
pub mod Decimal
use wyrm_os.Base.{
  ℕ, zero, suc, ◌+◌, ◌-◌, ◌*◌, ◌%◌, ◌^◌, Bool, true, false, List, [], ◌∷◌, ◌++◌, ltb, leb, ◌==◌,
  if◌then◌else◌, length,
}
use wyrm_os.Libc.Ctype.{isdigit}

abbrev pub u32 : ℕ → ℕ
u32 n = n % 2 ^ 32

abbrev pub neg32 : ℕ → ℕ
neg32 n = u32 (2 ^ 32 - n)

-- `a < b` on the signed values
abbrev pub lt_int : ℕ → ℕ → Bool
lt_int a b = ltb (u32 (a + 2 ^ 31)) (u32 (b + 2 ^ 31))

unfoldable pub abs : ℕ → ℕ
abs n = if lt_int n 0 then neg32 n else n

-- The loop over the digits: the characters that `end` has passed, the last one first.
abbrev pub pass_digits : List ℕ → (passed : List ℕ) → List ℕ
pass_digits [] passed = passed
pass_digits (c ∷ cs) passed = if isdigit c then pass_digits cs (c ∷ passed) else passed

-- The loop back to the start of the string.
abbrev pub sum_back : (passed : List ℕ) → (r e : ℕ) → ℕ
sum_back [] r e = r
sum_back (c ∷ cs) r e = sum_back cs (u32 (r + u32 (c + 2 ^ 32 - 48) * e)) (u32 (e * 10))

-- `str` has the bytes before the NUL.
unfoldable pub atoi : (str : List ℕ) → ℕ
atoi [] = 0
atoi (c ∷ cs) =
    if c == 45
    then neg32 (sum_back (pass_digits cs (c ∷ [])) 0 1)
    else sum_back (pass_digits (c ∷ cs) []) 0 1

abbrev pub atexit_max : ℕ
atexit_max = 32

-- The list of the registered handlers, in the order of their indices.
pub atexit : List ℕ → (c : ℕ) → ℕ × List ℕ
atexit handlers c =
    if leb atexit_max (length handlers) then (1, handlers) else (0, handlers ++ (c ∷ []))
