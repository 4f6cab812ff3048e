-- ===== src/Libc/Bytes.antt =====
-- A byte memory, and the C string at an address of it.
use wyrm_os.Base.{
  ℕ, suc, ◌+◌, ◌≤◌, ◌<◌, ◌≡◌, ◌≢◌, ◌⊎◌, ◌∙◌, ap, inl, ◌++◌, List, [], ◌∷◌, length, ◌==◌,
  if◌then◌else◌, arith,
}

abbrev pub Bytes : Type 0
Bytes = ℕ → ℕ

-- `*p = v`
abbrev pub store : Bytes → ℕ → ℕ → Bytes
store m p v q = if q == p then v else m q

-- The bytes of `xs`, none of them 0, and behind them the 0 that ends the string.
abbrev pub CString : Bytes → ℕ → List ℕ → Type 0
CString m p [] = m p ≡ 0
CString m p (x ∷ xs) = (m p ≡ x) × (x ≢ 0) × CString m (p + 1) xs

-- `m'` has `m`'s bytes outside the `n` bytes at `d`.
abbrev pub SameBut : ℕ → ℕ → Bytes → Bytes → Type 0
SameBut d n m m' = (q : ℕ) → (q < d) ⊎ (d + n ≤ q) → m' q ≡ m q

-- A string stays where its bytes do.
pub CString-same :
    {m m' : Bytes} (p : ℕ) (xs : List ℕ)
    → CString m p xs
    → ((q : ℕ) → p ≤ q → q ≤ p + length xs → m' q ≡ m q)
    → CString m' p xs
CString-same p [] e same = same p (omega arith) (omega arith) ∙ e
CString-same p (x ∷ xs) (e, ne, t) same = (
  same p (omega arith) (omega arith) ∙ e,
  ne,
  CString-same (p + 1) xs t (λ q low high. same q (omega arith) (omega arith)),
)

-- The NUL stands behind the string.
pub CString-end : (m : Bytes) (p : ℕ) (xs : List ℕ) → CString m p xs → m (p + length xs) ≡ 0
CString-end m p [] e = ground arith
CString-end m p (x ∷ xs) (_, _, t) = ap m (omega arith) ∙ CString-end m (p + 1) xs t

-- A string whose end is overwritten with another string is the two together.
pub CString-append :
    {m m' : Bytes} (n p : ℕ) (ys xs : List ℕ)
    → CString m p ys
    → SameBut (p + length ys) n m m'
    → CString m' (p + length ys) xs
    → CString m' p (ys ++ xs)
CString-append n p [] xs e same t = let z : p + 0 ≡ p = omega arith in rw z at t
CString-append n p (y ∷ ys) xs (e, ne, rest) same t =
    let shift : p + suc (length ys) ≡ p + 1 + length ys = omega arith in
    (
      same p (inl (omega arith)) ∙ e,
      ne,
      CString-append n (p + 1) ys xs rest (rw shift at same) (rw shift at t),
    )
