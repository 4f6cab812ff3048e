-- ===== src/Libc/Printf/Format.antt =====
-- What `__vprintf_generic` of lib/libc/stdio/printf.c works on: arguments, its variables, and the
-- characters of a conversion.
use wyrm_os.Base.{
  ℕ, Bool, true, false, ◌||◌, Option, none, some, List, [], ◌∷◌, ◌==◌, if◌then◌else◌,
}
use wyrm_os.Libc.Ctype.{isdigit}
use wyrm_os.Libc.Number.{u32}
use wyrm_os.Libc.Printf.Put.{Length, len_l, len_ll, len_h, len_hh, Params}

-- An argument: a number by its 64-bit pattern, a string by its bytes, the address of an int.
pub data Arg : Type 0 where
  number : ℕ → Arg
  string : List ℕ → Arg
  address : ℕ → Arg

-- `flags`: 0, or the one PRINTF_AWAIT bit that is set
pub data Await : Type 0 where
  await_nothing : Await
  await_flag : Await
  await_width : Await
  await_prec : Await
  await_len : Await
  await_spec : Await

-- `flags <<= 1`, which no code does in the last state
abbrev pub shift : Await → Await
shift await_nothing = await_nothing
shift await_flag = await_width
shift await_width = await_prec
shift await_prec = await_len
shift await_len = await_spec
shift await_spec = await_nothing

-- The variables of the function
pub record Run (D : Type 0) : Type 0 where
  pub flags : Await
  pub written : ℕ
  pub params : Params
  pub args : List Arg
  pub data_ : D

-- How a round of the loop ends: `goto next` with the characters behind, `continue`, `break`, or
-- without a meaning in C (an argument that is missing or of another kind, a write outside of an
-- array).
pub data Round (D : Type 0) : Type 0 where
  next : (format : List ℕ) → Run D → Round D
  again : Run D → Round D
  leave : Run D → Round D
  undefined : Round D

-- What the flag characters do to the parameters
unfoldable pub flag_of : ℕ → Params → Option Params
flag_of c par =
    if c == 45
    then some (record par { pad_right = true })
    else if c == 43
    then some (record par { always_sgn = true })
    else if c == 35
    then some (record par { sharp = true })
    else if c == 32
    then some (record par { ins_blank = true })
    else if c == 48
    then some (record par { pad_zero = true })
    else none

-- `while(isdigit(*(format + 1)) && *(format + 1) != '\0')`
abbrev pub skip_digits : List ℕ → List ℕ
skip_digits [] = []
skip_digits (c ∷ cs) = if isdigit c then skip_digits cs else c ∷ cs

-- The length characters at the format, and the characters behind the ones read
unfoldable pub length_of : ℕ → List ℕ → Option (Length × List ℕ)
length_of c [] = if c == 108 then some (len_l, []) else if c == 104 then some (len_h, []) else none
length_of c (b ∷ rest) =
    if c == 108
    then some (if b == 108 then (len_ll, rest) else (len_l, b ∷ rest))
    else if c == 104
    then some (if b == 104 then (len_hh, rest) else (len_h, b ∷ rest))
    else none

-- The conversions: %c, %s, a number with its sign, base and case, %p, %n, and others
pub data Spec : Type 0 where
  character : Spec
  text : Spec
  numeric : (signed : Bool) → (base : ℕ) → (uppercase : Bool) → Spec
  pointer : Spec
  count : Spec
  other : Spec

unfoldable pub spec_of : ℕ → Spec
spec_of c =
    if c == 99
    then character
    else if c == 115
    then text
    else if (c == 100) || (c == 105)
    then numeric true 10 false
    else if c == 117
    then numeric false 10 false
    else if c == 111
    then numeric false 8 false
    else if c == 120
    then numeric false 16 false
    else if c == 88
    then numeric false 16 true
    else if c == 112
    then pointer
    else if c == 110
    then count
    else other

-- `va_arg(arg_ptr, ...)`
abbrev pub number_arg : List Arg → Option (ℕ × List Arg)
number_arg (number n ∷ args) = some (n, args)
number_arg (string s ∷ args) = none
number_arg (address a ∷ args) = none
number_arg [] = none

abbrev pub int_arg : List Arg → Option (ℕ × List Arg)
int_arg args = elim (number_arg args) [ none ↦ none | some (n, rest) ↦ some (u32 n, rest) ]

abbrev pub string_arg : List Arg → Option (List ℕ × List Arg)
string_arg (string s ∷ args) = some (s, args)
string_arg (number n ∷ args) = none
string_arg (address a ∷ args) = none
string_arg [] = none

abbrev pub address_arg : List Arg → Option (ℕ × List Arg)
address_arg (address a ∷ args) = some (a, args)
address_arg (number n ∷ args) = none
address_arg (string s ∷ args) = none
address_arg [] = none

-- How the loop ends: with the variables, without a meaning in C, or with rounds left to do.
pub data Outcome (D : Type 0) : Type 0 where
  done : Run D → Outcome D
  fault : Outcome D
  out_of_rounds : Outcome D
