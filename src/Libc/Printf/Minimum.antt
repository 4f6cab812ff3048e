-- ===== src/Libc/Printf/Minimum.antt =====
-- The least signed char in lib/libc/stdio/printf.c.
use wyrm_os.Base.{
  ℕ, zero, suc, ◌-◌, ◌^◌, ◌%◌, ◌≤◌, ◌<◌, ◌≡◌, refl, inl, inr, true, false, ◌==◌, none, List, [],
  ◌∷◌, length, arith, Bool-cases, given, leb,
}
use wyrm_os.Libc.Printf.Put.{
  Params, len_hh, divide, push, digits_loop, all_digits, put_number, number_string,
}

hh_step :
    (n : ℕ)
    → 128 ≤ n
    → n < 2 ^ 8
    → (128 ≤ (divide 8 true 10 false n).1) × ((divide 8 true 10 false n).1 < 2 ^ 8)
unfolding divide
hh_step n low high =
    let e : leb (2 ^ (8 - 1)) n ≡ true = ground arith in rw e (omega arith, omega arith)

hh_loop :
    (k n : ℕ) (out : List ℕ) → 128 ≤ n → n < 2 ^ 8 → digits_loop k 8 true 10 false n out ≡ none
unfolding digits_loop
hh_loop zero n out low high = refl
hh_loop (suc k) n out low high = given (hh_step n low high) λ (low', high').
    let ne : (n == 0) ≡ false = ground arith in
    elim (Bool-cases (leb 63 (length out))) [
      | inl f ↦ rw (ne, push, f) refl
      | inr f ↦ rw (ne, push, f) (hh_loop k _ (_ ∷ out) low' high')
    ]

hh_digits : all_digits 8 true 10 false 128 ≡ none
unfolding all_digits
hh_digits = hh_loop 64 128 [] (omega arith) (omega arith)

-- __put_number of a `signed char` (%hhd) of -128 never gets to 0: it fills its stack and writes
-- below it.
pub put_number-hh_minimum :
    {D : Type 0} (emitter : ℕ → D → ℕ × D) (n : ℕ) (par : Params) (d : D)
    → n % 2 ^ 8 ≡ 128
    → put_number emitter n 10 false (record par { len = len_hh; signed = true }) d ≡ none
unfolding put_number number_string
put_number-hh_minimum emitter n par d e = rw (e, hh_digits) refl
