-- ===== src/Libc/Printf/Put.antt =====
-- lib/libc/stdio/printf.c: parameters of a conversion, strings and numbers. An `int` is its pattern
-- of 32 bits. An emitter takes a character and its data and gives its result and the data.
use wyrm_os.Base.{
  ℕ, zero, suc, ◌+◌, ◌-◌, ◌/◌, ◌%◌, ◌^◌, Bool, true, false, not, ◌&&◌, Option, none, some, List, [],
  ◌∷◌, leb, ◌==◌, if◌then◌else◌, length,
}
use wyrm_os.Base.Fail.{◌>>=◌}
use wyrm_os.Libc.Ctype.{toupper}
use wyrm_os.Libc.Number.{u32, lt_int}

-- PAR_LEN_NONE, PAR_LEN_L, PAR_LEN_LL, PAR_LEN_H, PAR_LEN_HH
pub data Length : Type 0 where
  len_none : Length
  len_l : Length
  len_ll : Length
  len_h : Length
  len_hh : Length

-- `__printf_params`: the PARAM_FL bits of `flags`, and `length` with PAR_LEN_SIGNED apart
pub record Params : Type 0 where
  pub pad_right : Bool
  pub always_sgn : Bool
  pub ins_blank : Bool
  pub sharp : Bool
  pub pad_zero : Bool
  pub width : ℕ
  pub precision : ℕ
  pub len : Length
  pub signed : Bool

-- `__printf_clear_params`
abbrev pub cleared : Params
cleared = record {
  pad_right = false;
  always_sgn = false;
  ins_blank = false;
  sharp = false;
  pad_zero = false;
  width = 0;
  precision = 0;
  len = len_none;
  signed = false;
}

module _ {D : Type 0} (emitter : ℕ → D → ℕ × D) where
  abbrev pub emit_times : ℕ → (c : ℕ) → D → D
  emit_times zero c d = d
  emit_times (suc n) c d = emit_times n c (emitter c d).1

  -- `while(from < par->width)`
  unfoldable pub emit_pad : (from width c : ℕ) → D → D
  emit_pad from width c d =
      if lt_int from width then emit_times (u32 (width + 2 ^ 32 - from)) c d else d

  -- The loop over the characters: whether it returned early, the index and the data.
  unfoldable pub emit_chars : Params → (is_raw : Bool) → List ℕ → (i : ℕ) → D → Bool × ℕ × D
  emit_chars par is_raw [] i d = (false, i, d)
  emit_chars par is_raw (c ∷ cs) i d =
      let d' : D = (emitter c d).1 in
      let i' : ℕ = u32 (i + 1) in
      let rest : Bool × ℕ × D = emit_chars par is_raw cs i' d' in
      if is_raw && (not (par.precision == 0) && not (lt_int i' par.precision))
      then (true, i', d')
      else rest

  -- Behind that loop: padding on the right
  unfoldable pub finish_str : Params → (zeros : ℕ) → (early : Bool) → (i : ℕ) → D → ℕ × D
  finish_str par zeros early i d =
      if early
      then (i, d)
      else if par.pad_right && lt_int i par.width
      then (par.width, emit_pad i par.width zeros d)
      else (i, d)

  -- `__emit_str`
  unfoldable pub emit_str : (str : List ℕ) → Params → (is_raw : Bool) → D → ℕ × D
  unfolding emit_pad emit_chars finish_str
  emit_str str par is_raw d =
      let zeros : ℕ = if par.pad_zero then 48 else 32 in
      let left : D =
        if par.pad_right
        then d
        else emit_pad (u32 (length str)) par.width (if is_raw then 32 else zeros) d in
      let (early, i, d') = emit_chars par is_raw str 0 left in finish_str par zeros early i d'

-- The characters from `esp + 1` to the NUL at stack[63]. Behind 63 of them a write is outside of the
-- array: `none`.
abbrev pub push : ℕ → List ℕ → Option (List ℕ)
push c out = if leb 63 (length out) then none else some (c ∷ out)

abbrev pub digit_char : (uppercase : Bool) → ℕ → ℕ
digit_char uppercase r =
    if leb 10 r then (if uppercase then toupper (97 + r - 10) else 97 + r - 10) else r + 48

-- A number of `bits` bits and the sign of its type; a value below 0
abbrev pub is_negative : (bits : ℕ) → (signed : Bool) → ℕ → Bool
is_negative bits signed n = signed && leb (2 ^ (bits - 1)) n

-- `number` as an operand of `% base` and `/= base`, where `base` is an `unsigned int`: a shorter
-- type is converted to `unsigned int`.
abbrev pub extended : (bits : ℕ) → (signed : Bool) → ℕ → ℕ
extended bits signed n = if is_negative bits signed n then n + 2 ^ 32 - 2 ^ bits else n

-- The character of a digit and the next number; the operands of 64 bits keep their sign.
unfoldable pub divide : (bits : ℕ) → (signed : Bool) → (base : ℕ) → (uppercase : Bool) → ℕ → ℕ × ℕ
divide bits signed base uppercase n =
    if (bits == 64) && is_negative bits signed n
    then (48 - (2 ^ 64 - n) % base, (2 ^ 64 - (2 ^ 64 - n) / base) % 2 ^ 64)
    else if bits == 64
    then (digit_char uppercase (n % base), n / base)
    else (
      digit_char uppercase (extended bits signed n % base),
      extended bits signed n / base % 2 ^ bits,
    )

-- `while(number)`: no round is left over when 64 are given, since 63 fill the stack.
unfoldable pub digits_loop :
    ℕ
    → (bits : ℕ) → (signed : Bool) → (base : ℕ) → (uppercase : Bool) → ℕ
    → List ℕ
    → Option (List ℕ)
unfolding divide
digits_loop zero bits signed base uppercase n out = none
digits_loop (suc k) bits signed base uppercase n out =
    if n == 0
    then some out
    else let (c, n') = divide bits signed base uppercase n in
      push c out >>= digits_loop k bits signed base uppercase n'

-- `while(w < par->precision && esp >= &stack[2])`; `w` is the number of characters.
unfoldable pub precision_loop : ℕ → (precision : ℕ) → List ℕ → List ℕ
precision_loop zero precision out = out
precision_loop (suc k) precision out =
    if lt_int (length out) precision && leb (length out) 60
    then precision_loop k precision (48 ∷ out)
    else out

unfoldable pub put_sharp : (base : ℕ) → (uppercase : Bool) → List ℕ → Option (List ℕ)
put_sharp base uppercase out =
    if base == 16
    then push (if uppercase then 88 else 120) out >>= push 48
    else if base == 8
    then push 48 out
    else some out

unfoldable pub put_sign : (negative : Bool) → Params → List ℕ → Option (List ℕ)
put_sign negative par out =
    if negative
    then push 45 out
    else if par.always_sgn
    then push 43 out
    else if par.ins_blank
    then push 32 out
    else some out

-- The digits of a number, at least one
unfoldable pub all_digits :
    (bits : ℕ) → (signed : Bool) → (base : ℕ) → (uppercase : Bool) → ℕ → Option (List ℕ)
all_digits bits signed base uppercase n =
    digits_loop 64 bits signed base uppercase n (if n == 0 then 48 ∷ [] else [])

-- What stands in front of the digits
unfoldable pub put_prefix :
    (signed negative : Bool) → (base : ℕ) → (uppercase : Bool) → Params → List ℕ → Option (List ℕ)
unfolding put_sharp put_sign
put_prefix signed negative base uppercase par out =
    (if par.sharp then put_sharp base uppercase out else some out) >>= λ out'.
    (if signed then put_sign negative par out' else some out')

-- The string that `__put_number_##c` builds on its stack.
unfoldable pub number_string :
    (bits : ℕ) → (signed : Bool) → (base : ℕ) → (uppercase : Bool) → Params → ℕ → Option (List ℕ)
number_string bits signed base uppercase par number =
    let negative : Bool = is_negative bits signed number in
    let n : ℕ = if negative then (2 ^ bits - number) % 2 ^ bits else number in
    all_digits bits signed base uppercase n >>= λ digits.
    put_prefix signed negative base uppercase par (precision_loop 61 par.precision digits)

-- The type that `__put_number` reads by the length
abbrev pub bits_of : Length → ℕ
bits_of len_none = 32
bits_of len_l = 64
bits_of len_ll = 64
bits_of len_h = 16
bits_of len_hh = 8

-- `__put_number`, of an argument of 64 bits; `none` is a write outside of the stack.
unfoldable pub put_number :
    {D : Type 0} (emitter : ℕ → D → ℕ × D)
    → ℕ
    → (base : ℕ) → (uppercase : Bool) → Params
    → D
    → Option (ℕ × D)
put_number emitter n base uppercase par d =
    number_string (bits_of par.len) par.signed base uppercase par (n % 2 ^ bits_of par.len)
    >>= λ str. some (emit_str emitter str par false d)
