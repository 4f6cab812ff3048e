-- ===== src/Libc/Printf/Plain.antt =====
-- vsnprintf of lib/libc/stdio/printf.c on a format without conversions.
use wyrm_os.Base.{
  ℕ, zero, suc, ◌+◌, ◌^◌, ◌%◌, ◌≤◌, ◌<◌, ◌≡◌, ◌≢◌, ◌∙◌, ap, refl, true, false, ◌==◌, List, [], ◌∷◌,
  length, arith,
}
use wyrm_os.Libc.Bytes.{Bytes, store}
use wyrm_os.Libc.Number.{u32, lt_int}
use wyrm_os.Libc.Printf.Put.{cleared}
use wyrm_os.Libc.Printf.Format.{Arg, Run, await_nothing, next, done}
use wyrm_os.Libc.Printf.Machine.{wrote, round, format_loop, vprintf_generic}
use wyrm_os.Libc.Printf.Buffer.{Buffer, buffer_putchar, buffer_store, vsnprintf, lt_int-lt}

-- `text` from `p` on
abbrev pub write : Bytes → ℕ → (text : List ℕ) → Bytes
write m p [] = m
write m p (c ∷ cs) = write (store m p c) (p + 1) cs

-- Bytes other than '%'
abbrev pub Plain : List ℕ → Type 0
Plain [] = Unit
Plain (c ∷ cs) = (c ≢ 37) × (c < 2 ^ 8) × Plain cs

-- The variables behind `i` characters
abbrev at_ : List Arg → (str size i : ℕ) → Bytes → Run Buffer
at_ args str size i m = record {
  flags = await_nothing;
  written = i;
  params = cleared;
  args = args;
  data_ = record { position = i; limit = size; buffer = str; memory = m };
}

put_fits :
    (c str size i : ℕ) (m : Bytes)
    → c < 2 ^ 8
    → i < size
    → size < 2 ^ 31
    → buffer_putchar c (record { position = i; limit = size; buffer = str; memory = m })
      ≡ (1, record { position = i + 1; limit = size; buffer = str; memory = store m (str + i) c })
unfolding buffer_putchar
put_fits c str size i m byte lt small =
    let fits : lt_int i size ≡ true = lt_int-lt i size lt small in
    let whole : c % 2 ^ 8 ≡ c = omega arith in
    let up : u32 (i + 1) ≡ i + 1 = omega arith in rw (fits, whole, up) refl

round-Plain :
    (c : ℕ) (cs : List ℕ) (args : List Arg) (str size i : ℕ) (m : Bytes)
    → c ≢ 37
    → c < 2 ^ 8
    → i < size
    → size < 2 ^ 31
    → round buffer_putchar buffer_store c cs (at_ args str size i m)
      ≡ next cs (at_ args str size (i + 1) (store m (str + i) c))
unfolding round
round-Plain c cs args str size i m ne byte lt small =
    let percent : (c == 37) ≡ false = ground arith in
    let up : u32 (i + 1) ≡ i + 1 = omega arith in
    rw percent (
      ap
        (λ (out : ℕ × Buffer).
          next cs (wrote buffer_putchar buffer_store (at_ args str size i m) args out))
        (put_fits c str size i m byte lt small)
      ∙ rw up refl)

loop_next :
    (k c : ℕ) (cs format : List ℕ) (r r' : Run Buffer)
    → round buffer_putchar buffer_store c cs r ≡ next format r'
    → format_loop buffer_putchar buffer_store (suc k) (c ∷ cs) r
      ≡ format_loop buffer_putchar buffer_store k format r'
unfolding format_loop
loop_next k c cs format r r' e = rw (format_loop, e) refl

loop-Plain :
    (rounds : ℕ) (text : List ℕ) (args : List Arg) (str size i : ℕ) (m : Bytes)
    → Plain text
    → i + length text ≤ size
    → size < 2 ^ 31
    → length text < rounds
    → format_loop buffer_putchar buffer_store rounds text (at_ args str size i m)
      ≡ done (at_ args str size (i + length text) (write m (str + i) text))
unfolding format_loop
loop-Plain zero text args str size i m plain fits small enough = absurd (omega arith)
loop-Plain (suc k) [] args str size i m plain fits small enough =
    let e : i + 0 ≡ i = omega arith in rw e refl
loop-Plain (suc k) (c ∷ cs) args str size i m (ne, byte, plain) fits small enough =
    let e : i + 1 + length cs ≡ i + suc (length cs) = omega arith in
    let f : str + (i + 1) ≡ str + i + 1 = omega arith in
    let rest =
      loop-Plain k cs args str size (i + 1) (store m (str + i) c) plain (omega arith) small
        (omega arith) in
    loop_next k c cs cs (at_ args str size i m) (at_ args str size (i + 1) (store m (str + i) c))
      (round-Plain c cs args str size i m ne byte (omega arith) small)
    ∙ rw (e, f) at rest

-- vsnprintf of a format without '%' that the buffer holds stores its bytes and nothing else, so that
-- no 0 ends the string, and returns their number.
pub vsnprintf-Plain :
    (rounds : ℕ) (m : Bytes) (str size : ℕ) (text : List ℕ) (args : List Arg)
    → Plain text
    → length text ≤ size
    → size < 2 ^ 31
    → length text < rounds
    → (r : Run Buffer) × (vsnprintf rounds m str size text args ≡ done r)
      × (r.written ≡ length text)
      × (r.data_.memory ≡ write m str text)
unfolding vsnprintf vprintf_generic
vsnprintf-Plain rounds m str size text args plain fits small enough =
    let z : str + 0 ≡ str = omega arith in
    let n : 0 + length text ≡ length text = omega arith in
    let lim : u32 size ≡ size = omega arith in
    (
      at_ args str size (length text) (write m str text),
      rw lim (
          rw (z, n) at (loop-Plain rounds text args str size 0 m plain (omega arith) small enough)),
      refl,
      refl,
    )
