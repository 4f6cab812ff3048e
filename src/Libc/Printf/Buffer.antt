-- ===== src/Libc/Printf/Buffer.antt =====
-- The emitter into a buffer, vsprintf and vsnprintf of lib/libc/stdio/printf.c.
use wyrm_os.Base.{
  ℕ, ◌+◌, ◌*◌, ◌-◌, ◌^◌, ◌%◌, ◌≤◌, ◌<◌, ◌≡◌, ◌∙◌, ◌⊎◌, refl, inl, inr, true, false, ◌==◌, List, [],
  ◌∷◌, length, if◌then◌else◌, arith, Bool-cases,
}
use wyrm_os.Libc.Bytes.{Bytes, store}
use wyrm_os.Libc.Words.{store_le, store_le-SameBut}
use wyrm_os.Libc.Number.{u32, lt_int}
use wyrm_os.Libc.Printf.Put.{cleared}
use wyrm_os.Libc.Printf.Format.{
  Arg, number, string, address, Run, await_nothing, Outcome, done, fault,
}
use wyrm_os.Libc.Printf.Machine.{vprintf_generic}
use wyrm_os.Libc.Printf.Ends.{ended, format_loop-Ends}
use wyrm_os.Libc.Printf.Keeps.{Keeps}

-- `positioned_buffer`, with the memory
pub record Buffer : Type 0 where
  pub position : ℕ
  pub limit : ℕ
  pub buffer : ℕ
  pub memory : Bytes

abbrev pub eof : ℕ
eof = 2 ^ 32 - 1

-- `__buffer_putchar`
unfoldable pub buffer_putchar : (c : ℕ) → Buffer → ℕ × Buffer
buffer_putchar c b =
    if lt_int b.position b.limit
    then (
      1,
      record b {
        memory = store b.memory (b.buffer + b.position) (c % 2 ^ 8);
        position = u32 (b.position + 1);
      },
    )
    else (eof, b)

-- What %n does to the memory that the buffer is in
unfoldable pub buffer_store : (a v : ℕ) → Buffer → Buffer
buffer_store a v b = record b { memory = store_le b.memory a 4 v }

pub vsprintf : (rounds : ℕ) → Bytes → (buf : ℕ) → (format : List ℕ) → List Arg → Outcome Buffer
unfolding vprintf_generic
vsprintf rounds m buf format args =
    vprintf_generic buffer_putchar buffer_store rounds format args
      (record { position = 0; limit = 0; buffer = buf; memory = m })

unfoldable pub vsnprintf :
    (rounds : ℕ) → Bytes → (str size : ℕ) → (format : List ℕ) → List Arg → Outcome Buffer
unfolding vprintf_generic
vsnprintf rounds m str size format args =
    vprintf_generic buffer_putchar buffer_store rounds format args
      (record { position = 0; limit = u32 size; buffer = str; memory = m })

-- `a` is an address among the arguments.
abbrev pub IsAddress : (a : ℕ) → List Arg → Type 0
IsAddress a [] = ⊥
IsAddress a (number n ∷ args) = IsAddress a args
IsAddress a (string s ∷ args) = IsAddress a args
IsAddress a (address b ∷ args) = (a ≡ b) ⊎ IsAddress a args

-- No byte has changed but for the `n` from `d` on and the 4 at each address among the arguments.
abbrev pub SameButStores : (d n : ℕ) → List Arg → Bytes → Bytes → Type 0
SameButStores d n args m m' =
    (q : ℕ)
    → (q < d) ⊎ (d + n ≤ q)
    → ((a : ℕ) → IsAddress a args → (q < a) ⊎ (a + 4 ≤ q))
    → m' q ≡ m q

-- Inside of the buffer, the memory around it as it was, and no arguments but those at the start
Inside : List Arg → Bytes → (str size : ℕ) → List Arg → Buffer → Type 0
Inside args0 m str size args b =
    (b.position ≤ size)
    × (b.limit ≡ size)
    × (b.buffer ≡ str)
    × SameButStores str size args0 m b.memory
    × ((a : ℕ) → IsAddress a args → IsAddress a args0)

lt_int-true : (a b : ℕ) → a < 2 ^ 31 → b < 2 ^ 31 → lt_int a b ≡ true → a < b
lt_int-true a b ha hb e = ground arith

lt_int-false : (a b : ℕ) → a < 2 ^ 31 → b < 2 ^ 31 → lt_int a b ≡ false → b ≤ a
lt_int-false a b ha hb e = ground arith

pub lt_int-lt : (a b : ℕ) → a < b → b < 2 ^ 31 → lt_int a b ≡ true
lt_int-lt a b lt hb = ground arith

store-SameButStores :
    (m m' : Bytes) (args : List Arg) (d n p v : ℕ)
    → SameButStores d n args m m'
    → d ≤ p
    → p < d + n
    → SameButStores d n args m (store m' p v)
store-SameButStores m m' args d n p v same low high q out apart = elim (Bool-cases (q == p)) [
  | inl e ↦ absurd (ground arith)
  | inr e ↦ rw e (same q out apart)
]

buffer_putchar-Inside :
    (args0 : List Arg) (m : Bytes) (str size : ℕ)
    → size < 2 ^ 31
    → (args : List Arg) (c : ℕ) (b : Buffer) → Inside args0 m str size args b
    → Inside args0 m str size args ((buffer_putchar c b).1)
unfolding buffer_putchar Inside
buffer_putchar-Inside args0 m str size small args c b (low, lim, buf, same, left) =
    elim (Bool-cases (lt_int b.position b.limit)) [
      | inl e ↦
          let lt : b.position < b.limit =
            lt_int-true b.position b.limit (omega arith) (omega arith) e in
          rw e (
            omega arith,
            lim,
            buf,
            store-SameButStores m b.memory args0 str size (b.buffer + b.position) (c % 2 ^ 8) same
                (omega arith) (omega arith),
            left,
          )
      | inr e ↦ rw e (low, lim, buf, same, left)
    ]

IsAddress-tail : (x : Arg) (args : List Arg) (a : ℕ) → IsAddress a args → IsAddress a (x ∷ args)
IsAddress-tail (number n) args a i = i
IsAddress-tail (string s) args a i = i
IsAddress-tail (address b) args a i = inr i

buffer-Keeps :
    (args0 : List Arg) (m : Bytes) (str size : ℕ)
    → size < 2 ^ 31
    → Keeps buffer_putchar buffer_store (Inside args0 m str size)
unfolding buffer_store Inside
buffer-Keeps args0 m str size small = record {
  emits = λ args c b p. buffer_putchar-Inside args0 m str size small args c b p;
  drops = λ x args b (low, lim, buf, same, left).
      (low, lim, buf, same, λ a i. left a (IsAddress-tail x args a i));
  stores = λ a v args b (low, lim, buf, same, left). (
    low,
    lim,
    buf,
    λ q out apart.
        store_le-SameBut b.memory a 4 v q (apart a (left a (inl refl))) ∙ same q out apart,
    λ a' i. left a' (inr i),
  );
}

-- vsnprintf of any format and arguments ends, when there are more rounds than 6 for each character
-- of the format: it has no meaning in C, or it has changed no byte outside of the `size` bytes at
-- `str` and the 4 bytes at each address among the arguments, for a size that an int can hold.
pub vsnprintf-SameBut :
    (rounds : ℕ) (m : Bytes) (str size : ℕ) (format : List ℕ) (args : List Arg)
    → size < 2 ^ 31
    → 6 * length format < rounds
    → (vsnprintf rounds m str size format args ≡ fault)
      ⊎ ((r : Run Buffer) × (vsnprintf rounds m str size format args ≡ done r)
          × SameButStores str size args m r.data_.memory)
unfolding vsnprintf vprintf_generic Inside
vsnprintf-SameBut rounds m str size format args small enough =
    elim (ended (Inside args m str size) _ (
      format_loop-Ends buffer_putchar buffer_store (Inside args m str size)
        (buffer-Keeps args m str size small) rounds format
        (record {
          flags = await_nothing;
          written = 0;
          params = cleared;
          args = args;
          data_ = record { position = 0; limit = u32 size; buffer = str; memory = m };
        })
        (omega arith, omega arith, refl, λ q out apart. refl, λ a i. i) (omega arith))) [
          | inl e ↦ inl e
          | inr (r, e, (low, lim, buf, same, left)) ↦ inr (r, e, same)
        ]

-- vsprintf of any format and arguments ends in the same way, and has changed no byte but the 4 at each
-- address among the arguments.
pub vsprintf-same :
    (rounds : ℕ) (m : Bytes) (buf : ℕ) (format : List ℕ) (args : List Arg)
    → 6 * length format < rounds
    → (vsprintf rounds m buf format args ≡ fault)
      ⊎ ((r : Run Buffer) × (vsprintf rounds m buf format args ≡ done r)
          × SameButStores buf 0 args m r.data_.memory)
unfolding vsprintf vsnprintf
vsprintf-same rounds m buf format args enough =
    vsnprintf-SameBut rounds m buf 0 format args (omega arith) enough
