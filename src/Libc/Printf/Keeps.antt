-- ===== src/Libc/Printf/Keeps.antt =====
-- What an emitter keeps, the conversions of lib/libc/stdio/printf.c keep.
use wyrm_os.Base.{
  ℕ, zero, suc, ◌+◌, ◌-◌, ◌^◌, ◌%◌, inl, inr, Bool, true, false, ◌&&◌, not, ◌==◌, Option, none,
  some, List, [], ◌∷◌, length, if◌then◌else◌, Bool-cases, Option-cases,
}
use wyrm_os.Libc.Number.{lt_int, u32}
use wyrm_os.Libc.Printf.Put.{
  Params, len_l, emit_times, emit_pad, emit_chars, finish_str, emit_str, put_number, number_string,
  bits_of,
}
use wyrm_os.Libc.Printf.Format.{
  Arg, Run, Spec, number, string, address, character, text, numeric, pointer, count, other, int_arg,
  number_arg, string_arg, address_arg,
}
use wyrm_os.Libc.Printf.Machine.{convert, convert_spec}

-- Both branches have a property.
pub if_either :
    {A : Type 0} (Q : A → Type 0) (b : Bool) {x y : A} → Q x → Q y → Q (if b then x else y)
if_either Q true p q = p
if_either Q false p q = q

module _ {D : Type 0} (emitter : ℕ → D → ℕ × D) (P : D → Type 0)
    (keeps : (c : ℕ) (d : D) → P d → P ((emitter c d).1)) where
  abbrev pub OutOk : Option (ℕ × D) → Type 0
  OutOk none = Unit
  OutOk (some (n, d)) = P d

  emit_times-keeps : (n c : ℕ) (d : D) → P d → P (emit_times emitter n c d)
  emit_times-keeps zero c d p = p
  emit_times-keeps (suc n) c d p = emit_times-keeps n c _ (keeps c d p)

  emit_pad-keeps : (from width c : ℕ) (d : D) → P d → P (emit_pad emitter from width c d)
  unfolding emit_pad
  emit_pad-keeps from width c d p = elim (Bool-cases (lt_int from width)) [
    | inl e ↦ rw e (emit_times-keeps (u32 (width + 2 ^ 32 - from)) c d p)
    | inr e ↦ rw e p
  ]

  emit_chars-keeps :
      (par : Params) (is_raw : Bool) (cs : List ℕ) (i : ℕ) (d : D)
      → P d
      → P ((emit_chars emitter par is_raw cs i d).2)
  unfolding emit_chars
  emit_chars-keeps par is_raw [] i d p = p
  emit_chars-keeps par is_raw (c ∷ cs) i d p =
      if_either (λ (out : Bool × ℕ × D). P out.2)
        (is_raw && (not (par.precision == 0) && not (lt_int (u32 (i + 1)) par.precision)))
        (keeps c d p) (emit_chars-keeps par is_raw cs (u32 (i + 1)) _ (keeps c d p))

  finish_str-keeps :
      (par : Params) (zeros : ℕ) (early : Bool) (i : ℕ) (d : D)
      → P d
      → P ((finish_str emitter par zeros early i d).1)
  unfolding finish_str
  finish_str-keeps par zeros early i d p =
      if_either (λ (out : ℕ × D). P out.1) early {x = (i, d)} p
        (if_either (λ (out : ℕ × D). P out.1) (par.pad_right && lt_int i par.width)
          {x = (par.width, emit_pad emitter i par.width zeros d)} {y = (i, d)}
          (emit_pad-keeps i par.width zeros d p) p)

  emit_str-keeps :
      (str : List ℕ) (par : Params) (is_raw : Bool) (d : D)
      → P d
      → P ((emit_str emitter str par is_raw d).1)
  unfolding emit_str
  emit_str-keeps str par is_raw d p =
      let zeros : ℕ = if par.pad_zero then 48 else 32 in
      finish_str-keeps par zeros _ _ _ (
        emit_chars-keeps par is_raw str 0 _ (
          if_either P par.pad_right p
            (emit_pad-keeps (u32 (length str)) par.width (if is_raw then 32 else zeros) d p)))

  put_number-keeps :
      (n base : ℕ) (uppercase : Bool) (par : Params) (d : D)
      → P d
      → OutOk (put_number emitter n base uppercase par d)
  unfolding put_number
  put_number-keeps n base uppercase par d p =
      elim (Option-cases
        (number_string (bits_of par.len) par.signed base uppercase par (n % 2 ^ bits_of par.len))) [
          | inl e ↦ rw (OutOk, e) tt
          | inr (str, e) ↦ rw (OutOk, e) (emit_str-keeps str par false d p)
        ]

-- What the emitter, taking an argument and storing to the address that is the next argument keep: a
-- property of the data with the arguments that are left
pub record Keeps {D : Type 0} (emitter : ℕ → D → ℕ × D) (store_int : ℕ → ℕ → D → D)
    (P : List Arg → D → Type 0) : Type 0 where
  pub emits : (args : List Arg) (c : ℕ) (d : D) → P args d → P args ((emitter c d).1)
  pub drops : (x : Arg) (args : List Arg) (d : D) → P (x ∷ args) d → P args d
  pub stores :
      (a v : ℕ) (args : List Arg) (d : D) → P (address a ∷ args) d → P args (store_int a v d)

module _ {D : Type 0} (emitter : ℕ → D → ℕ × D) (store_int : ℕ → ℕ → D → D)
    (P : List Arg → D → Type 0) where
  abbrev pub RunOk : Option (Run D) → Type 0
  RunOk none = Unit
  RunOk (some r) = P r.args r.data_

  -- the arguments left behind one that was taken
  abbrev pub ArgOk : {A : Type 0} → D → Option (A × List Arg) → Type 0
  ArgOk d none = Unit
  ArgOk d (some (x, args)) = P args d

  abbrev StoreOk : (v : ℕ) → D → Option (ℕ × List Arg) → Type 0
  StoreOk v d none = Unit
  StoreOk v d (some (a, args)) = P args (store_int a v d)

  module _ (keeps : Keeps emitter store_int P) where
    number_arg-ok : (args : List Arg) (d : D) → P args d → ArgOk d (number_arg args)
    number_arg-ok [] d p = tt
    number_arg-ok (number n ∷ args) d p = keeps.drops (number n) args d p
    number_arg-ok (string s ∷ args) d p = tt
    number_arg-ok (address a ∷ args) d p = tt

    pub int_arg-ok : (args : List Arg) (d : D) → P args d → ArgOk d (int_arg args)
    int_arg-ok [] d p = tt
    int_arg-ok (number n ∷ args) d p = keeps.drops (number n) args d p
    int_arg-ok (string s ∷ args) d p = tt
    int_arg-ok (address a ∷ args) d p = tt

    string_arg-ok : (args : List Arg) (d : D) → P args d → ArgOk d (string_arg args)
    string_arg-ok [] d p = tt
    string_arg-ok (number n ∷ args) d p = tt
    string_arg-ok (string s ∷ args) d p = keeps.drops (string s) args d p
    string_arg-ok (address a ∷ args) d p = tt

    address_arg-ok : (v : ℕ) (args : List Arg) (d : D) → P args d → StoreOk v d (address_arg args)
    address_arg-ok v [] d p = tt
    address_arg-ok v (number n ∷ args) d p = tt
    address_arg-ok v (string s ∷ args) d p = tt
    address_arg-ok v (address a ∷ args) d p = keeps.stores a v args d p

    convert-keeps :
        (base : ℕ) (uppercase : Bool) (par : Params) (r : Run D)
        → P r.args r.data_
        → RunOk (convert emitter store_int base uppercase par r)
    unfolding convert
    convert-keeps base uppercase par r p = elim (Option-cases (number_arg r.args)) [
      | inl e ↦ rw (RunOk, e) tt
      | inr ((n, args), e) ↦ elim (Option-cases (put_number emitter n base uppercase par r.data_)) [
        | inl f ↦ rw (RunOk, e, f) tt
        | inr (out, f) ↦
            let left : ArgOk r.data_ (number_arg r.args) = number_arg-ok r.args r.data_ p in
            let ok : OutOk emitter (P args) (keeps.emits args)
                (put_number emitter n base uppercase par r.data_) =
              put_number-keeps emitter (P args) (keeps.emits args) n base uppercase par r.data_
                (rw e at left) in
            rw (RunOk, e, f) (rw f at ok)
      ]
    ]

    pub convert_spec-keeps :
        (spec : Spec) (r : Run D) → P r.args r.data_ → RunOk (convert_spec emitter store_int spec r)
    unfolding convert_spec
    convert_spec-keeps character r p = elim (Option-cases (int_arg r.args)) [
      | inl e ↦ rw (RunOk, e) tt
      | inr ((n, args), e) ↦
          let left : ArgOk r.data_ (int_arg r.args) = int_arg-ok r.args r.data_ p in
          rw (RunOk, e) (keeps.emits args n r.data_ (rw e at left))
    ]
    convert_spec-keeps text r p = elim (Option-cases (string_arg r.args)) [
      | inl e ↦ rw (RunOk, e) tt
      | inr ((s, args), e) ↦
          let left : ArgOk r.data_ (string_arg r.args) = string_arg-ok r.args r.data_ p in
          rw (RunOk, e)
            (emit_str-keeps emitter (P args) (keeps.emits args) s r.params true r.data_
              (rw e at left))
    ]
    convert_spec-keeps (numeric signed base uppercase) r p =
        convert-keeps base uppercase (record (r.params) { signed = signed }) r p
    convert_spec-keeps pointer r p = convert-keeps 16 false (record (r.params) { len = len_l }) r p
    convert_spec-keeps count r p = elim (Option-cases (address_arg r.args)) [
      | inl e ↦ rw (RunOk, e) tt
      | inr ((a, args), e) ↦
          let ok : StoreOk r.written r.data_ (address_arg r.args) =
            address_arg-ok r.written r.args r.data_ p in
          rw (RunOk, e) (rw e at ok)
    ]
    convert_spec-keeps other r p = p
