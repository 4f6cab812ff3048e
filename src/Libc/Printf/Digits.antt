-- ===== src/Libc/Printf/Digits.antt =====
-- The digits that lib/libc/stdio/printf.c puts on its stack.
use wyrm_os.Base.{
  ℕ, zero, suc, ◌+◌, ◌*◌, ◌/◌, ◌^◌, ◌%◌, ◌≤◌, ◌<◌, ◌≡◌, ◌≢◌, ◌⊎◌, ◌∙◌, ap, refl, inl, inr, Bool,
  true, false, ◌==◌, Option, some, List, [], ◌∷◌, length, if◌then◌else◌, arith, Bool-cases, given,
  leb,
}
use native.Mathlib.Nat.{
  pow-le-pow_left, pow-le-pow_right, pow-zero, pow-suc, mod-eq_of_lt, div-le_self,
  div-lt_iff_lt-mul,
}
use wyrm_os.Libc.Number.{lt_int, atoi}
use wyrm_os.Libc.Number.Decimal.{value, digit, Digits, atoi-Digits}
use wyrm_os.Libc.Printf.Put.{
  put_prefix, cleared, divide, push, is_negative, digits_loop, all_digits, digit_char,
  number_string, precision_loop, put_sign,
}

-- A number that is not below 0: its digits by plain division.
pub digits_of : ℕ → (base : ℕ) → (uppercase : Bool) → ℕ → List ℕ → List ℕ
digits_of zero base uppercase n out = out
digits_of (suc k) base uppercase n out =
    if n == 0
    then out
    else digits_of k base uppercase (n / base) (digit_char uppercase (n % base) ∷ out)

is_negative-div :
    (bits : ℕ) (signed : Bool) (n base : ℕ)
    → is_negative bits signed n ≡ false
    → is_negative bits signed (n / base) ≡ false
is_negative-div bits false n base e = refl
is_negative-div bits true n base e = given (div-le_self n base) λ le. ground arith

divide_lem :
    (bits : ℕ) (signed : Bool) (base : ℕ) (uppercase : Bool) (n : ℕ)
    → is_negative bits signed n ≡ false
    → n < 2 ^ bits
    → divide bits signed base uppercase n ≡ (digit_char uppercase (n % base), n / base)
unfolding divide
divide_lem bits signed base uppercase n e small = given (div-le_self n base) λ le.
    let whole : n / base % 2 ^ bits ≡ n / base = mod-eq_of_lt (omega arith) in
    elim (Bool-cases (bits == 64)) [ inl f ↦ rw (f, e) refl | inr f ↦ rw (f, e, whole) refl ]

digits_loop_lem :
    (k bits : ℕ) (signed : Bool) (base : ℕ) (uppercase : Bool) (n : ℕ) (out : List ℕ)
    → 0 < base
    → is_negative bits signed n ≡ false
    → n < 2 ^ bits
    → n < base ^ k
    → length out + k ≤ 63
    → digits_loop (suc k) bits signed base uppercase n out ≡ some (digits_of k base uppercase n out)
unfolding digits_loop digits_of
digits_loop_lem zero bits signed base uppercase n out pos sign small few fits =
    let z : n ≡ 0 = omega (arith, pow-zero base) in rw z refl
digits_loop_lem (suc k) bits signed base uppercase n out pos sign small few fits =
    elim (Bool-cases (n == 0)) [
      | inl e ↦ rw (digits_loop, e) refl
      | inr e ↦
          let step = divide_lem bits signed base uppercase n sign small in
          let room : leb 63 (length out) ≡ false = ground arith in
          let less : n / base < base ^ k =
            (div-lt_iff_lt-mul pos).1 (omega (arith, pow-suc base k)) in
          given (div-le_self n base) λ le.
            rw (digits_loop, e, step, push, room)
              (digits_loop_lem k bits signed base uppercase (n / base)
                (digit_char uppercase (n % base) ∷ out) pos
                (is_negative-div bits signed n base sign) (omega arith) less (omega arith))
    ]

length-digits_of :
    (k base : ℕ) (uppercase : Bool) (n : ℕ) (out : List ℕ)
    → length (digits_of k base uppercase n out) ≤ length out + k
unfolding digits_of
length-digits_of zero base uppercase n out = omega arith
length-digits_of (suc k) base uppercase n out = elim (Bool-cases (n == 0)) [
  | inl e ↦ rw e (omega arith)
  | inr e ↦ rw e (
      omega (
        arith,
        length-digits_of k base uppercase (n / base) (digit_char uppercase (n % base) ∷ out),
      ))
]

-- Decimal digits, and the number they stand for
value-digits_of :
    (k n : ℕ) (uppercase : Bool) (out : List ℕ)
    → n < 10 ^ k
    → value 0 (digits_of k 10 uppercase n out) ≡ value n out
unfolding digits_of
value-digits_of zero n uppercase out few = let z : n ≡ 0 = omega arith in rw z refl
value-digits_of (suc k) n uppercase out few = elim (Bool-cases (n == 0)) [
  | inl e ↦ let z : n ≡ 0 = ground arith in rw (e, z) refl
  | inr e ↦
      let c : digit_char uppercase (n % 10) ≡ n % 10 + 48 = ground arith in
      let back : n / 10 * 10 + digit (n % 10 + 48) ≡ n = omega arith in
      rw (e, c)
        (value-digits_of k (n / 10) uppercase ((n % 10 + 48) ∷ out) (omega (arith, pow-suc 10 k))
          ∙ ap (λ (t : ℕ). value t out) back)
]

digits_of-Digits :
    (k n : ℕ) (uppercase : Bool) (out : List ℕ)
    → Digits out
    → Digits (digits_of k 10 uppercase n out)
unfolding digits_of
digits_of-Digits zero n uppercase out d = d
digits_of-Digits (suc k) n uppercase out d = elim (Bool-cases (n == 0)) [
  | inl e ↦ rw e d
  | inr e ↦
      let c : digit_char uppercase (n % 10) ≡ n % 10 + 48 = ground arith in
      rw (e, c)
        (digits_of-Digits k (n / 10) uppercase ((n % 10 + 48) ∷ out) (omega arith, omega arith, d))
]

digits_loop-zero :
    (bits : ℕ) (signed : Bool) (base : ℕ) (uppercase : Bool) (out : List ℕ)
    → digits_loop 64 bits signed base uppercase 0 out ≡ some out
unfolding digits_loop
digits_loop-zero bits signed base uppercase out = refl

pow-fits : (bits base : ℕ) → 8 ≤ base → bits ≤ 64 → 2 ^ bits < base ^ 63
pow-fits bits base low word =
    let a : 2 ^ bits ≤ 2 ^ 64 = pow-le-pow_right (omega arith) word in
    let b : 8 ^ 63 ≤ base ^ 63 = pow-le-pow_left low 63 in omega arith

all_digits_lem :
    (bits : ℕ) (signed : Bool) (base : ℕ) (uppercase : Bool) (n : ℕ)
    → 8 ≤ base
    → is_negative bits signed n ≡ false
    → n < 2 ^ bits
    → bits ≤ 64
    → ((n ≡ 0) × (all_digits bits signed base uppercase n ≡ some (48 ∷ [])))
      ⊎ ((n ≢ 0)
          × (all_digits bits signed base uppercase n ≡ some (digits_of 63 base uppercase n [])))
unfolding all_digits
all_digits_lem bits signed base uppercase n low sign small word = elim (Bool-cases (n == 0)) [
  | inl e ↦
      let z : n ≡ 0 = ground arith in
      inl (z, rw (all_digits, z) (digits_loop-zero bits signed base uppercase (48 ∷ [])))
  | inr e ↦ inr (
    λ z. ground arith,
    rw (all_digits, e)
        (digits_loop_lem 63 bits signed base uppercase n [] (omega arith) sign small
          (omega (arith, pow-fits bits base low word)) (omega arith)),
  )
]

-- The digits of any number below 2 ^ 64 that is not below 0, in a base of at least 8, fit the stack.
pub all_digits-fit :
    (bits : ℕ) (signed : Bool) (base : ℕ) (uppercase : Bool) (n : ℕ)
    → 8 ≤ base
    → is_negative bits signed n ≡ false
    → n < 2 ^ bits
    → bits ≤ 64
    → (out : List ℕ) × (all_digits bits signed base uppercase n ≡ some out) × (length out ≤ 63)
all_digits-fit bits signed base uppercase n low sign small word =
    elim (all_digits_lem bits signed base uppercase n low sign small word) [
      | inl (z, e) ↦ (48 ∷ [], e, omega arith)
      | inr (nz, e) ↦ (_, e, length-digits_of 63 base uppercase n [])
    ]

no_precision : (out : List ℕ) → length out ≤ 63 → precision_loop 61 0 out ≡ out
unfolding precision_loop
no_precision out fits =
    let e : lt_int (length out) 0 ≡ false = ground arith in rw (precision_loop, e) refl

no_prefix :
    (signed : Bool) (base : ℕ) (uppercase : Bool) (out : List ℕ)
    → put_prefix signed false base uppercase cleared out ≡ some out
unfolding put_prefix put_sign
no_prefix true base uppercase out = refl
no_prefix false base uppercase out = refl

plain_string :
    (n : ℕ) (signed uppercase : Bool) (out : List ℕ)
    → is_negative 32 signed n ≡ false
    → all_digits 32 signed 10 uppercase n ≡ some out
    → length out ≤ 63
    → number_string 32 signed 10 uppercase cleared n ≡ some out
unfolding number_string
plain_string n signed uppercase out sign e fits =
    rw (sign, e, no_precision out fits) (no_prefix signed 10 uppercase out)

not_negative : (n : ℕ) (signed : Bool) → n < 2 ^ 31 → is_negative 32 signed n ≡ false
not_negative n true small = ground arith
not_negative n false small = refl

nonempty :
    {o : Option (List ℕ)} (n : ℕ) (s : List ℕ)
    → n ≢ 0
    → Digits s
    → value 0 s ≡ n
    → o ≡ some s
    → n < 2 ^ 31
    → (s' : List ℕ) × (o ≡ some s') × Digits s' × (s' ≢ []) × (atoi s' ≡ n)
nonempty n [] nz d v e small = absurd (nz (omega arith))
nonempty n (c ∷ cs) nz d v e small = (c ∷ cs, e, d, λ q. cc, atoi-Digits c cs d ∙ omega arith)

-- A number below 2 ^ 31 that __put_number prints in base 10 without parameters is a string of
-- digits, from which atoi reads the number back.
pub number_string-atoi :
    (n : ℕ) (signed uppercase : Bool)
    → n < 2 ^ 31
    → (s : List ℕ) × (number_string 32 signed 10 uppercase cleared n ≡ some s)
      × Digits s
      × (s ≢ [])
      × (atoi s ≡ n)
number_string-atoi n signed uppercase small =
    let sign : is_negative 32 signed n ≡ false = not_negative n signed small in
    elim (all_digits_lem 32 signed 10 uppercase n (omega arith) sign (omega arith) (omega arith)) [
      | inl (z, e) ↦ (
        48 ∷ [],
        plain_string n signed uppercase (48 ∷ []) sign e (omega arith),
        (omega arith, omega arith, tt),
        λ q. cc,
        atoi-Digits 48 [] (omega arith, omega arith, tt) ∙ omega arith,
      )
      | inr (nz, e) ↦ given (digits_of-Digits 63 n uppercase [] tt) λ d.
          given (value-digits_of 63 n uppercase [] (omega arith)) λ v.
            given (length-digits_of 63 10 uppercase n [])
              λ fits. nonempty n _ nz d v (plain_string n signed uppercase _ sign e fits) small
    ]
