-- ===== src/Libc/Printf/Ends.antt =====
-- The machine of lib/libc/stdio/printf.c ends, and what the emitter keeps, it keeps.
use wyrm_os.Base.{
  ℕ, zero, suc, ◌+◌, ◌*◌, ◌≤◌, ◌<◌, ◌≡◌, refl, ap, ◌⊎◌, inl, inr, ◌==◌, Option, none, some, List,
  [], ◌∷◌, length, arith, Bool-cases, Option-cases,
}
use wyrm_os.Libc.Ctype.{isdigit}
use wyrm_os.Libc.Printf.Keeps.{if_either, Keeps, RunOk, ArgOk, int_arg-ok, convert_spec-keeps}
use wyrm_os.Libc.Printf.Put.{Length, len_l, len_ll, len_h, len_hh}
use wyrm_os.Libc.Printf.Format.{
  Arg, Await, await_nothing, await_flag, await_width, await_prec, await_len, await_spec, shift, Run,
  Round, next, again, leave, undefined, flag_of, skip_digits, length_of, Outcome, done, fault,
  out_of_rounds, spec_of, int_arg,
}
use wyrm_os.Libc.Printf.Machine.{
  at_flag, at_width, after_point, at_prec, at_len, convert_spec, at_spec, at_percent, at_character,
  round, format_loop,
}

-- How many times `continue` can follow before the next character
abbrev pub rank : Await → ℕ
rank await_nothing = 0
rank await_flag = 4
rank await_width = 3
rank await_prec = 2
rank await_len = 1
rank await_spec = 0

rank-le : (a : Await) → rank a ≤ 4
rank-le await_nothing = omega arith
rank-le await_flag = omega arith
rank-le await_width = omega arith
rank-le await_prec = omega arith
rank-le await_len = omega arith
rank-le await_spec = omega arith

length-skip_digits : (cs : List ℕ) → length (skip_digits cs) ≤ length cs
length-skip_digits [] = omega arith
length-skip_digits (c ∷ cs) = elim (Bool-cases (isdigit c)) [
  | inl e ↦ rw e (omega (arith, length-skip_digits cs))
  | inr e ↦ rw e (omega arith)
]

rank-shift : (a : Await) → 0 < rank a → rank (shift a) < rank a
rank-shift await_nothing lt = absurd (omega arith)
rank-shift await_flag lt = omega arith
rank-shift await_width lt = omega arith
rank-shift await_prec lt = omega arith
rank-shift await_len lt = omega arith
rank-shift await_spec lt = absurd (omega arith)

-- length_of reads on.
abbrev LengthOk : List ℕ → Option (Length × List ℕ) → Type 0
LengthOk rest none = Unit
LengthOk rest (some (l, more)) = length more ≤ length rest

length_of-ok : (c : ℕ) (rest : List ℕ) → LengthOk rest (length_of c rest)
unfolding length_of
length_of-ok c [] =
    if_either (LengthOk []) (c == 108) {x = some (len_l, [])} (omega arith)
      (if_either (LengthOk []) (c == 104) {x = some (len_h, [])} (omega arith) tt)
length_of-ok c (b ∷ rest) =
    if_either (LengthOk (b ∷ rest)) (c == 108)
      (if_either (λ (o : Length × List ℕ). length o.1 ≤ suc (length rest)) (b == 108)
        {x = (len_ll, rest)} {y = (len_l, b ∷ rest)} (omega arith) (omega arith))
      (if_either (LengthOk (b ∷ rest)) (c == 104)
        (if_either (λ (o : Length × List ℕ). length o.1 ≤ suc (length rest)) (b == 104)
          {x = (len_hh, rest)} {y = (len_h, b ∷ rest)} (omega arith) (omega arith))
        tt)

-- The loop ends with the property, or without a meaning in C.
abbrev pub Ends : {D : Type 0} (P : List Arg → D → Type 0) → Outcome D → Type 0
Ends P (done r) = P r.args r.data_
Ends P fault = Unit
Ends P out_of_rounds = ⊥

pub ended :
    {D : Type 0} (P : List Arg → D → Type 0) (o : Outcome D)
    → Ends P o
    → (o ≡ fault) ⊎ ((r : Run D) × (o ≡ done r) × P r.args r.data_)
ended P (done r) p = inr (r, refl, p)
ended P fault p = inl refl
ended P out_of_rounds p = absurd p

module _ {D : Type 0} (emitter : ℕ → D → ℕ × D) (store_int : ℕ → ℕ → D → D)
    (P : List Arg → D → Type 0) where
  -- A round goes on with fewer characters, or with a later state of `flags`, and the property.
  abbrev pub RoundOk : List ℕ → Run D → Round D → Type 0
  RoundOk rest r (next format r') = (length format ≤ length rest) × P r'.args r'.data_
  RoundOk rest r (again r') = (rank r'.flags < rank r.flags) × P r'.args r'.data_
  RoundOk rest r (leave r') = P r'.args r'.data_
  RoundOk rest r undefined = Unit

  module _ (keeps : Keeps emitter store_int P) where
    at_flag-ok :
        (c : ℕ) (rest : List ℕ) (r : Run D)
        → 0 < rank r.flags
        → P r.args r.data_
        → RoundOk rest r (at_flag emitter store_int c rest r)
    unfolding at_flag
    at_flag-ok c rest r later p = elim (Option-cases (flag_of c r.params)) [
      | inl e ↦ rw (RoundOk, e) (rank-shift r.flags later, p)
      | inr (par, e) ↦ rw (RoundOk, e) (omega arith, p)
    ]

    at_width-ok :
        (c : ℕ) (rest : List ℕ) (r : Run D)
        → 0 < rank r.flags
        → P r.args r.data_
        → RoundOk rest r (at_width emitter store_int c rest r)
    unfolding at_width
    at_width-ok c rest r later p = elim (Bool-cases (c == 42)) [
      | inl star ↦ elim (Option-cases (int_arg r.args)) [
        | inl e ↦ rw (star, e) tt
        | inr ((w, args), e) ↦
            let left : ArgOk emitter store_int P r.data_ (int_arg r.args) =
              int_arg-ok emitter store_int P keeps r.args r.data_ p in
            rw (star, e) (omega arith, rw e at left)
      ]
      | inr star ↦ elim (Bool-cases (isdigit c)) [
        | inl e ↦ rw (star, e) (length-skip_digits rest, p)
        | inr e ↦ rw (star, e) (rank-shift r.flags later, p)
      ]
    ]

    after_point-ok :
        (c : ℕ) (rest : List ℕ) (r : Run D)
        → P r.args r.data_
        → RoundOk rest r (after_point emitter store_int rest r)
    unfolding after_point
    after_point-ok b [] r p = p
    after_point-ok b (c ∷ rest) r p = elim (Bool-cases (c == 42)) [
      | inl star ↦ elim (Option-cases (int_arg r.args)) [
        | inl e ↦ rw (star, e) tt
        | inr ((w, args), e) ↦
            let left : ArgOk emitter store_int P r.data_ (int_arg r.args) =
              int_arg-ok emitter store_int P keeps r.args r.data_ p in
            rw (star, e) (omega arith, rw e at left)
      ]
      | inr star ↦ elim (Bool-cases (isdigit c)) [
        | inl e ↦ rw (star, e) (omega (arith, length-skip_digits rest), p)
        | inr e ↦ rw (star, e) (omega arith, p)
      ]
    ]

    at_len-ok :
        (c : ℕ) (rest : List ℕ) (r : Run D)
        → 0 < rank r.flags
        → P r.args r.data_
        → RoundOk rest r (at_len emitter store_int c rest r)
    unfolding at_len
    at_len-ok c rest r later p = elim (Option-cases (length_of c rest)) [
      | inl e ↦ rw (RoundOk, e) (rank-shift r.flags later, p)
      | inr ((l, more), e) ↦
          let ok : LengthOk rest (length_of c rest) = length_of-ok c rest in
          rw (RoundOk, e) (rw e at ok, p)
    ]

    at_spec-ok :
        (c : ℕ) (rest : List ℕ) (r : Run D)
        → P r.args r.data_
        → RoundOk rest r (at_spec emitter store_int c rest r)
    unfolding at_spec
    at_spec-ok c rest r p = elim (Option-cases (convert_spec emitter store_int (spec_of c) r)) [
      | inl e ↦ rw (RoundOk, e) tt
      | inr (x, e) ↦
          let ok : RunOk emitter store_int P (convert_spec emitter store_int (spec_of c) r) =
            convert_spec-keeps emitter store_int P keeps (spec_of c) r p in
          rw (RoundOk, e) (omega arith, rw e at ok)
    ]

    at_prec-ok :
        (c : ℕ) (rest : List ℕ) (r : Run D)
        → 0 < rank r.flags
        → P r.args r.data_
        → RoundOk rest r (at_prec emitter store_int c rest r)
    unfolding at_prec
    at_prec-ok c rest r later p =
        if_either (RoundOk rest r) (c == 46) (after_point-ok c rest r p)
          (rank-shift r.flags later, p)

    at_percent-ok :
        (a : Await) (rest : List ℕ) (r : Run D)
        → r.flags ≡ a
        → P r.args r.data_
        → RoundOk rest r (at_percent emitter store_int a rest r)
    at_percent-ok await_spec rest r e p = (omega arith, keeps.emits r.args 37 r.data_ p)
    at_percent-ok await_nothing rest r e p = (omega arith, p)
    at_percent-ok await_flag rest r e p = (rank-shift r.flags (omega (arith, ap rank e)), p)
    at_percent-ok await_width rest r e p = (rank-shift r.flags (omega (arith, ap rank e)), p)
    at_percent-ok await_prec rest r e p = (rank-shift r.flags (omega (arith, ap rank e)), p)
    at_percent-ok await_len rest r e p = (rank-shift r.flags (omega (arith, ap rank e)), p)

    at_character-ok :
        (a : Await) (c : ℕ) (rest : List ℕ) (r : Run D)
        → r.flags ≡ a
        → P r.args r.data_
        → RoundOk rest r (at_character emitter store_int a c rest r)
    at_character-ok await_nothing c rest r e p = (omega arith, keeps.emits r.args c r.data_ p)
    at_character-ok await_flag c rest r e p = at_flag-ok c rest r (omega (arith, ap rank e)) p
    at_character-ok await_width c rest r e p = at_width-ok c rest r (omega (arith, ap rank e)) p
    at_character-ok await_prec c rest r e p = at_prec-ok c rest r (omega (arith, ap rank e)) p
    at_character-ok await_len c rest r e p = at_len-ok c rest r (omega (arith, ap rank e)) p
    at_character-ok await_spec c rest r e p = at_spec-ok c rest r p

    round-ok :
        (c : ℕ) (rest : List ℕ) (r : Run D)
        → P r.args r.data_
        → RoundOk rest r (round emitter store_int c rest r)
    unfolding round
    round-ok c rest r p =
        if_either (RoundOk rest r) (c == 37) (at_percent-ok r.flags rest r refl p)
          (at_character-ok r.flags c rest r refl p)

    -- Where the rounds are more than 6 for each character left and 4, the loop ends, and the data
    -- has the property where the code has a meaning in C.
    pub format_loop-Ends :
        (rounds : ℕ) (format : List ℕ) (r : Run D)
        → P r.args r.data_
        → 6 * length format + rank r.flags < rounds
        → Ends P (format_loop emitter store_int rounds format r)
    unfolding format_loop
    format_loop-Ends zero format r p enough = absurd (omega arith)
    format_loop-Ends (suc k) [] r p enough = p
    format_loop-Ends (suc k) (c ∷ rest) r p enough =
        (elim (round emitter store_int c rest r)
            as (λ o.
              RoundOk rest r o
              → Ends P (elim o [
                | next format r' ↦ format_loop emitter store_int k format r'
                | again r' ↦ format_loop emitter store_int k (c ∷ rest) r'
                | leave r' ↦ done r'
                | undefined ↦ fault
              ])) [
                | next format r' ↦
                    λ (short, q). format_loop-Ends k format r' q (omega (arith, rank-le r'.flags))
                | again r' ↦ λ (lower, q). format_loop-Ends k (c ∷ rest) r' q (omega arith)
                | leave r' ↦ λ q. q
                | undefined ↦ λ q. tt
              ])
          (round-ok c rest r p)
