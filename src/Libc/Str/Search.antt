-- ===== src/Libc/Str/Search.antt =====
-- strchr, strchrnul and strstr.
use wyrm_os.Base.{
  ℕ, zero, suc, ◌+◌, ◌%◌, ◌≤◌, ◌<◌, ◌≡◌, ◌≢◌, ◌∙◌, ◌⊎◌, inl, inr, refl, ap, Bool, true, false, ◌&&◌,
  Option, none, some, List, [], ◌∷◌, length, ◌==◌, if◌then◌else◌, arith, Bool-cases, given,
}
use wyrm_os.Libc.Bytes.{Bytes, CString}
use wyrm_os.Libc.Str.{strchr, strstr_match, strstr_loop, strstr}

-- `k` is the first offset from `s` on at which the byte `c` stands.
abbrev pub First : Bytes → (s c k : ℕ) → Type 0
First m s c k = (m (s + k) ≡ c) × ((j : ℕ) → j < k → m (s + j) ≢ c)

-- The byte `c` does not stand in the first `n` bytes.
abbrev pub Absent : Bytes → (s c n : ℕ) → Type 0
Absent m s c n = (j : ℕ) → j < n → m (s + j) ≢ c

Absent-suc : (m : Bytes) (s c n : ℕ) → m s ≢ c → Absent m (s + 1) c n → Absent m s c (suc n)
Absent-suc m s c n ne rest zero lt = λ e. ne (ap m (omega arith) ∙ e)
Absent-suc m s c n ne rest (suc j) lt = λ e. rest j (omega arith) (ap m (omega arith) ∙ e)

First-zero : (m : Bytes) (s c : ℕ) → (m s == c) ≡ true → First m s c 0
First-zero m s c e =
    let z : s + 0 ≡ s = omega arith in (rw z (ground arith), λ j lt. absurd (omega arith))

-- strchr returns the address of the first byte of the string that is `c` as a char, the NUL
-- included, and NULL where there is none; one round more than the length is enough.
pub strchr-First :
    (m : Bytes) (s c : ℕ) (xs : List ℕ)
    → CString m s xs
    → ((k : ℕ) × (k ≤ length xs)
        × (strchr (suc (length xs)) m s c ≡ some (s + k))
        × First m s (c % 256) k)
      ⊎ ((strchr (suc (length xs)) m s c ≡ some 0) × Absent m s (c % 256) (suc (length xs)))
unfolding strchr
strchr-First m s c [] e = elim (Bool-cases (m s == c % 256)) [
  | inl here ↦ inl (0, omega arith, ground arith, First-zero m s (c % 256) here)
  | inr other ↦
      inr (ground arith, Absent-suc m s (c % 256) 0 (ground arith) (λ j lt. absurd (omega arith)))
]
strchr-First m s c (x ∷ xs) (e, ne, t) = elim (Bool-cases (m s == c % 256)) [
  | inl here ↦ inl (0, omega arith, ground arith, First-zero m s (c % 256) here)
  | inr other ↦ elim (strchr-First m (s + 1) c xs t) [
    | inl (k, le, run, (at, before)) ↦ inl (
      suc k,
      omega arith,
      ground arith,
      (ap m (omega arith) ∙ at, Absent-suc m s (c % 256) k (ground arith) before),
    )
    | inr (run, absent) ↦
        inr (ground arith, Absent-suc m s (c % 256) (suc (length xs)) (ground arith) absent)
  ]
]

-- Whether `ys` is a prefix of `xs`, and the first place of `xs` from which it is.
unfoldable pub prefix : List ℕ → List ℕ → Bool
prefix [] xs = true
prefix (y ∷ ys) [] = false
prefix (y ∷ ys) (x ∷ xs) = (x == y) && prefix ys xs

pub find_prefix : List ℕ → List ℕ → Option ℕ
unfolding prefix
find_prefix ys [] = if prefix ys [] then some 0 else none
find_prefix ys (x ∷ xs) =
    let rest = find_prefix ys xs in
    if prefix ys (x ∷ xs) then some 0 else elim rest [ none ↦ none | some i ↦ some (suc i) ]

strstr_match-prefix :
    (m : Bytes) (a b k : ℕ) (xs ys : List ℕ)
    → CString m a xs
    → CString m b ys
    → length ys < k
    → strstr_match k m a b ≡ some (prefix ys xs)
unfolding strstr_match prefix
strstr_match-prefix m a b zero xs ys t t' lt = absurd (omega arith)
strstr_match-prefix m a b (suc k) xs [] t e' lt = ground arith
strstr_match-prefix m a b (suc k) [] (y ∷ ys) e (e', ne', t') lt = ground arith
strstr_match-prefix m a b (suc k) (x ∷ xs) (y ∷ ys) (e, ne, t) (e', ne', t') lt =
    let rest = strstr_match-prefix m (a + 1) (b + 1) k xs ys t t' (omega arith) in ground arith

-- the address that strstr returns
abbrev pub found : ℕ → Option ℕ → ℕ
found s r = elim r [ none ↦ 0 | some i ↦ s + i ]

found-suc :
    (s : ℕ) (r : Option ℕ)
    → found (s + 1) r ≡ found s (elim r [ none ↦ none | some i ↦ some (suc i) ])
found-suc s none = refl
found-suc s (some i) = omega arith

strstr_loop-find_prefix :
    (m : Bytes) (s b y j k : ℕ) (xs ys : List ℕ)
    → CString m s xs
    → CString m b (y ∷ ys)
    → length (y ∷ ys) < j
    → length xs < k
    → strstr_loop k j m s b ≡ some (found s (find_prefix (y ∷ ys) xs))
unfolding strstr_loop find_prefix prefix
strstr_loop-find_prefix m s b y j zero xs ys t t' lt lt' = absurd (omega arith)
strstr_loop-find_prefix m s b y j (suc k) [] ys t t' lt lt' = ground arith
strstr_loop-find_prefix m s b y j (suc k) (x ∷ xs) ys (e, ne, t) (e', ne', t') lt lt' =
    given (strstr_match-prefix m s b j (x ∷ xs) (y ∷ ys) (e, ne, t) (e', ne', t') lt) λ hit'.
      given
        (strstr_loop-find_prefix m (s + 1) b y j k xs ys t (e', ne', t') lt (omega arith)
          ∙ ap some (found-suc s (find_prefix (y ∷ ys) xs)))
        λ rest. ground arith

strstr-start :
    (k : ℕ) (m : Bytes) (s b : ℕ) → (m b == 0) ≡ false → strstr k m s b ≡ strstr_loop k k m s b
unfolding strstr
strstr-start k m s b start = rw start refl

strstr-empty : (k : ℕ) (m : Bytes) (s b : ℕ) → m b ≡ 0 → strstr k m s b ≡ some s
unfolding strstr
strstr-empty k m s b e = ground arith

-- strstr returns the address of the first place from which the second string is a prefix of what
-- follows, NULL where there is none; rounds for either string and its NUL are enough.
pub strstr-find_prefix :
    (m : Bytes) (s b : ℕ) (xs ys : List ℕ)
    → CString m s xs
    → CString m b ys
    → strstr (suc (length xs + length ys)) m s b ≡ some (found s (find_prefix ys xs))
unfolding find_prefix prefix
strstr-find_prefix m s b [] [] t e = strstr-empty _ m s b e ∙ ap some (omega arith)
strstr-find_prefix m s b (x ∷ xs) [] t e = strstr-empty _ m s b e ∙ ap some (omega arith)
strstr-find_prefix m s b xs (y ∷ ys) t (e, ne, t') =
    let k : ℕ = suc (length xs + length (y ∷ ys)) in
    strstr-start k m s b (ground arith)
    ∙ strstr_loop-find_prefix m s b y k k xs ys t (e, ne, t') (omega arith) (omega arith)
