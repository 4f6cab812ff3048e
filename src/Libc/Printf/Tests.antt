-- ===== src/Libc/Printf/Tests.antt =====
-- Formats as bytes: "%5d%n", "hi", "x%cy".
use wyrm_os.Base.{ℕ, ◌≡◌, ◌⊎◌, refl, false, List, [], ◌∷◌, arith}
use wyrm_os.Libc.Bytes.{Bytes}
use wyrm_os.Libc.Printf.Put.{cleared, emit_pad, emit_chars, finish_str, emit_str}
use wyrm_os.Libc.Printf.Format.{
  number, address, Run, Outcome, done, fault, out_of_rounds, flag_of, length_of, spec_of,
}
use wyrm_os.Libc.Printf.Machine.{
  vprintf_generic, format_loop, round, at_flag, at_width, at_prec, at_len, at_spec, convert_spec,
}
use wyrm_os.Libc.Words.{store_le}
use wyrm_os.Libc.Printf.Buffer.{
  Buffer, buffer_putchar, buffer_store, vsnprintf, SameButStores, vsnprintf-SameBut,
}

abbrev memory : Bytes
memory = λ q. 7

abbrev five_d : List ℕ
five_d = 37 ∷ 53 ∷ 100 ∷ 37 ∷ 110 ∷ []

abbrev start : Buffer
start = record { position = 0; limit = 9; buffer = 100; memory = memory }

-- "12" of %5u: padded on the left, and the spaces are not counted.
padded : (emit_str buffer_putchar (49 ∷ 50 ∷ []) (record cleared { width = 5 }) false start).0 ≡ 2
unfolding emit_str emit_chars finish_str emit_pad buffer_putchar
padded = refl

vsnprintf-SameBut_example :
    (vsnprintf 31 memory 100 3 five_d (number 12 ∷ address 200 ∷ []) ≡ fault)
    ⊎ ((r : Run Buffer) × (vsnprintf 31 memory 100 3 five_d (number 12 ∷ address 200 ∷ []) ≡ done r)
        × SameButStores 100 3 (number 12 ∷ address 200 ∷ []) memory r.data_.memory)
vsnprintf-SameBut_example =
    vsnprintf-SameBut 31 memory 100 3 five_d (number 12 ∷ address 200 ∷ []) (omega arith)
      (omega arith)

abbrev hi : List ℕ
hi = 104 ∷ 105 ∷ []

-- Where %n has stored its int
abbrev at_200 : Outcome Buffer → ℕ
at_200 (done r) = r.data_.memory 200
at_200 fault = 0
at_200 out_of_rounds = 0

-- "a%n"
counted : at_200 (vsnprintf 31 memory 100 3 (97 ∷ 37 ∷ 110 ∷ []) (address 200 ∷ [])) ≡ 1
unfolding vsnprintf vprintf_generic format_loop round at_flag flag_of at_width at_prec at_len
    length_of at_spec spec_of convert_spec buffer_putchar buffer_store store_le
counted = refl
