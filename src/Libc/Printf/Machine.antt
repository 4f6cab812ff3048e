-- ===== src/Libc/Printf/Machine.antt =====
-- `__vprintf_generic` of lib/libc/stdio/printf.c: the machine that reads the format.
use wyrm_os.Base.{
  ℕ, zero, suc, ◌+◌, Bool, true, false, Option, none, some, List, [], ◌∷◌, ◌==◌, if◌then◌else◌,
}
use wyrm_os.Base.Fail.{◌>>=◌}
use wyrm_os.Libc.Ctype.{isdigit}
use wyrm_os.Libc.Number.{u32, atoi}
use wyrm_os.Libc.Printf.Put.{len_l, Params, cleared, emit_str, put_number}
use wyrm_os.Libc.Printf.Format.{
  Arg, Await, Outcome, Round, Run, Spec, address_arg, again, await_flag, await_len, await_nothing,
  await_prec, await_spec, await_width, character, count, done, fault, flag_of, int_arg, leave,
  length_of, next, number_arg, numeric, other, out_of_rounds, pointer, shift, skip_digits, spec_of,
  string_arg, text, undefined,
}

-- `store_int a v` puts the int `v` at the address `a` of the memory, which is a part of the data.
module _ {D : Type 0} (emitter : ℕ → D → ℕ × D) (store_int : ℕ → ℕ → D → D) where
  -- `written += ...` of what was emitted, with the arguments left
  abbrev pub wrote : Run D → List Arg → ℕ × D → Run D
  wrote r args (n, d) = record r { written = u32 (r.written + n); args = args; data_ = d }

  abbrev pub shifted : Run D → Run D
  shifted r = record r { flags = shift r.flags }

  abbrev pub with_params : Run D → Params → Run D
  with_params r par = record r { flags = shift r.flags; params = par }

  -- `flags = 0; __printf_clear_params(&params);`
  abbrev pub finish : Run D → Run D
  finish r = record r { flags = await_nothing; params = cleared }

  unfoldable pub at_flag : ℕ → List ℕ → Run D → Round D
  at_flag c rest r = elim (flag_of c r.params) [
    | some par ↦ next rest (with_params r par)
    | none ↦ again (shifted r)
  ]

  abbrev pub set_width : Run D → ℕ → Run D
  set_width r w = with_params r (record (r.params) { width = w })

  abbrev pub set_precision : Run D → ℕ → Run D
  set_precision r n = with_params r (record (r.params) { precision = n })

  unfoldable pub at_width : ℕ → List ℕ → Run D → Round D
  at_width c rest r =
      if c == 42
      then elim (int_arg r.args) [
        | none ↦ undefined
        | some (w, args) ↦ next rest (set_width (record r { args = args }) w)
      ]
      else if isdigit c
      then next (skip_digits rest) (set_width r (atoi (c ∷ rest)))
      else again (shifted r)

  -- Behind the point; the format ends, and with it the loop, where there is no character.
  unfoldable pub after_point : List ℕ → Run D → Round D
  after_point [] r = leave r
  after_point (c ∷ rest) r =
      if c == 42
      then elim (int_arg r.args) [
        | none ↦ undefined
        | some (n, args) ↦ next rest (set_precision (record r { args = args }) n)
      ]
      else if isdigit c
      then next (skip_digits rest) (set_precision r (atoi (c ∷ rest)))
      else next rest (set_precision r 0)

  unfoldable pub at_prec : ℕ → List ℕ → Run D → Round D
  at_prec c rest r = if c == 46 then after_point rest r else again (shifted r)

  unfoldable pub at_len : ℕ → List ℕ → Run D → Round D
  at_len c rest r = elim (length_of c rest) [
    | none ↦ again (shifted r)
    | some (l, rest') ↦ next rest' (with_params r (record (r.params) { len = l }))
  ]

  -- A number, `none` where it has no meaning
  unfoldable pub convert : (base : ℕ) → (uppercase : Bool) → Params → Run D → Option (Run D)
  convert base uppercase par r = number_arg r.args >>= λ (n, args).
      put_number emitter n base uppercase par r.data_ >>= λ out. some (wrote r args out)

  unfoldable pub convert_spec : Spec → Run D → Option (Run D)
  unfolding convert
  convert_spec character r = int_arg r.args >>= λ (n, args). some (wrote r args (emitter n r.data_))
  convert_spec text r = string_arg r.args >>= λ (s, args).
      some (wrote r args (emit_str emitter s r.params true r.data_))
  convert_spec (numeric signed base uppercase) r =
      convert base uppercase (record (r.params) { signed = signed }) r
  convert_spec pointer r = convert 16 false (record (r.params) { len = len_l }) r
  convert_spec count r = address_arg r.args >>= λ (a, args).
      some (record r { args = args; data_ = store_int a r.written r.data_ })
  convert_spec other r = some r

  unfoldable pub at_spec : ℕ → List ℕ → Run D → Round D
  at_spec c rest r = elim (convert_spec (spec_of c) r) [
    | none ↦ undefined
    | some r' ↦ next rest (finish r')
  ]

  -- `c == '%'`, by the value of `flags`
  abbrev pub at_percent : Await → List ℕ → Run D → Round D
  at_percent await_spec rest r = next rest (finish (wrote r r.args (emitter 37 r.data_)))
  at_percent await_nothing rest r = next rest (record r { flags = await_flag })
  at_percent await_flag rest r = again (shifted r)
  at_percent await_width rest r = again (shifted r)
  at_percent await_prec rest r = again (shifted r)
  at_percent await_len rest r = again (shifted r)

  -- Another character, by the value of `flags`
  abbrev pub at_character : Await → ℕ → List ℕ → Run D → Round D
  at_character await_nothing c rest r = next rest (wrote r r.args (emitter c r.data_))
  at_character await_flag c rest r = at_flag c rest r
  at_character await_width c rest r = at_width c rest r
  at_character await_prec c rest r = at_prec c rest r
  at_character await_len c rest r = at_len c rest r
  at_character await_spec c rest r = at_spec c rest r

  -- One round of the loop, at the character `c`
  unfoldable pub round : ℕ → List ℕ → Run D → Round D
  round c rest r = if c == 37 then at_percent r.flags rest r else at_character r.flags c rest r

  -- `while(*format)`
  unfoldable pub format_loop : (rounds : ℕ) → List ℕ → Run D → Outcome D
  unfolding round
  format_loop zero format r = out_of_rounds
  format_loop (suc k) [] r = done r
  format_loop (suc k) (c ∷ rest) r = elim (round c rest r) [
    | next format r' ↦ format_loop k format r'
    | again r' ↦ format_loop k (c ∷ rest) r'
    | leave r' ↦ done r'
    | undefined ↦ fault
  ]

  unfoldable pub vprintf_generic : (rounds : ℕ) → (format : List ℕ) → List Arg → D → Outcome D
  unfolding format_loop
  vprintf_generic rounds format args d =
      format_loop rounds format
        (record { flags = await_nothing; written = 0; params = cleared; args = args; data_ = d })
