-- ===== src/Libc/Str/Token.antt =====
-- strtok.
use wyrm_os.Base.{
  ℕ, zero, suc, ◌+◌, ◌≤◌, ◌<◌, ◌≡◌, ◌≢◌, ◌∙◌, ◌⊎◌, inl, inr, refl, Bool, true, false, some, List,
  [], ◌∷◌, length, ◌==◌, if◌then◌else◌, arith, Bool-cases, given,
}
use wyrm_os.Base.Fail.{◌>>=◌}
use wyrm_os.Libc.Bytes.{Bytes, store, CString, SameBut, CString-same}
use wyrm_os.Libc.Str.{is_delim, skip_delims, end_token, strtok}

-- `c` is one of the bytes of `ds`.
abbrev pub one_of : ℕ → List ℕ → Bool
one_of c [] = false
one_of c (d ∷ ds) = if c == d then true else one_of c ds

-- `xs` behind the delimiters at its front; the bytes before its first delimiter; those behind it.
abbrev pub drop_delims : List ℕ → List ℕ → List ℕ
drop_delims ds [] = []
drop_delims ds (x ∷ xs) = if one_of x ds then drop_delims ds xs else x ∷ xs

abbrev pub word : List ℕ → List ℕ → List ℕ
word ds [] = []
word ds (x ∷ xs) = if one_of x ds then [] else x ∷ word ds xs

abbrev pub after : List ℕ → List ℕ → List ℕ
after ds [] = []
after ds (x ∷ xs) = if one_of x ds then xs else after ds xs

one_of-zero : (m : Bytes) (d : ℕ) (ds : List ℕ) → CString m d ds → one_of 0 ds ≡ false
one_of-zero m d [] t = refl
one_of-zero m d (x ∷ ds) (e, ne, t) = let rest = one_of-zero m (d + 1) ds t in ground arith

is_delim-one_of :
    (k : ℕ) (m : Bytes) (c d : ℕ) (ds : List ℕ)
    → CString m d ds
    → length ds < k
    → is_delim k m c d ≡ some (one_of c ds)
unfolding is_delim
is_delim-one_of zero m c d ds t lt = absurd (omega arith)
is_delim-one_of (suc k) m c d [] e lt = ground arith
is_delim-one_of (suc k) m c d (x ∷ ds) (e, ne, t) lt =
    let rest = is_delim-one_of k m c (d + 1) ds t (omega arith) in ground arith

module _ (j : ℕ) (d : ℕ) (ds : List ℕ) (fuel : length ds < j) where
  skip_delims-drop_delims :
      (k : ℕ) (m : Bytes) (s : ℕ) (xs : List ℕ)
      → CString m d ds
      → CString m s xs
      → length xs < k
      → (s' : ℕ) × (skip_delims k j m s d ≡ some s')
        × (s ≤ s')
        × CString m s' (drop_delims ds xs)
        × (s' + length (drop_delims ds xs) ≡ s + length xs)
  unfolding skip_delims
  skip_delims-drop_delims zero m s xs delims t lt = absurd (omega arith)
  skip_delims-drop_delims (suc k) m s [] delims e lt =
      given (is_delim-one_of j m 0 d ds delims fuel) λ test.
        given (one_of-zero m d ds delims) λ no_delim. (s, ground arith, omega arith, e, refl)
  skip_delims-drop_delims (suc k) m s (x ∷ xs) delims (e, ne, t) lt =
      given (is_delim-one_of j m (m s) d ds delims fuel) λ test. elim (Bool-cases (one_of x ds)) [
        | inl yes' ↦
            let (s', run, low, t', len) =
              skip_delims-drop_delims k m (s + 1) xs delims t (omega arith) in
            rw yes' (s', ground arith, omega arith, t', omega arith)
        | inr no' ↦ rw no' (s, ground arith, omega arith, (e, ne, t), refl)
      ]

  -- What end_token leaves of the string `xs` at `s`.
  abbrev pub Ended : Bytes → ℕ → List ℕ → ℕ → Bytes → Type 0
  Ended m s xs b m' =
      CString m' s (word ds xs)
      × CString m' b (after ds xs)
      × (s ≤ b)
      × (b + length (after ds xs) ≡ s + length xs)
      × SameBut s (length xs) m m'

  end_token-Ended :
      (k : ℕ) (m : Bytes) (ret s : ℕ) (xs : List ℕ)
      → CString m d ds
      → CString m s xs
      → length xs < k
      → (b : ℕ) × (m' : Bytes) × (end_token k j m ret s d ≡ some (ret, b, m')) × Ended m s xs b m'
  unfolding end_token
  end_token-Ended zero m ret s xs delims t lt = absurd (omega arith)
  end_token-Ended (suc k) m ret s [] delims e lt =
      (s, m, ground arith, (e, e, omega arith, refl, λ q out. refl))
  end_token-Ended (suc k) m ret s (x ∷ xs) delims (e, ne, t) lt =
      given (is_delim-one_of j m (m s) d ds delims fuel) λ test.
        let go : (m s == 0) ≡ false = ground arith in
        elim (Bool-cases (one_of x ds)) [
          | inl yes' ↦
              rw (go, test, e, yes')
                (
                  s + 1,
                  store m s 0,
                  refl,
                  (
                    ground arith,
                    CString-same (s + 1) xs t (λ q low high. ground arith),
                    omega arith,
                    omega arith,
                    λ q out. ground arith,
                  ),
                )
          | inr no' ↦
              let (b, m', run, (w, a, le, len, same)) =
                end_token-Ended k m ret (s + 1) xs delims t (omega arith) in
              rw (go, test, e, no')
                (
                  b,
                  m',
                  run,
                  (
                    (same s (ground arith) ∙ e, ne, w),
                    a,
                    omega arith,
                    omega arith,
                    λ q out. same q (ground arith),
                  ),
                )
        ]

strtok-start :
    (k : ℕ) (backup : ℕ) (m : Bytes) (src d s : ℕ)
    → (if src == 0 then backup else src) ≡ s
    → s ≢ 0
    → strtok k backup m src d ≡ (do
      s' ← skip_delims k k m s d
      if m s' == 0 then some (0, backup, m) else end_token k k m s' s' d)
unfolding strtok
strtok-start k backup m src d s start ne =
    let go : (s == 0) ≡ false = ground arith in rw (start, go) refl

-- strtok of the string at `s`, which is the one given or, for NULL, the one it goes on with. Where
-- nothing but delimiters is left it returns NULL and changes nothing. Otherwise the result is the
-- address of the first word, which is a string of its own now, strtok goes on behind it, and only
-- bytes of the string have changed. Rounds for either string and its NUL are enough.
pub strtok-word :
    (k : ℕ) (backup : ℕ) (m : Bytes) (src d s : ℕ) (xs ds : List ℕ)
    → (if src == 0 then backup else src) ≡ s
    → s ≢ 0
    → CString m d ds
    → CString m s xs
    → length ds < k
    → length xs < k
    → ((drop_delims ds xs ≡ []) × (strtok k backup m src d ≡ some (0, backup, m)))
      ⊎ ((drop_delims ds xs ≢ [])
          × (t : ℕ) × (b : ℕ) × (m' : Bytes) × (strtok k backup m src d ≡ some (t, b, m'))
          × (s ≤ t)
          × CString m' t (word ds (drop_delims ds xs))
          × CString m' b (after ds (drop_delims ds xs))
          × (t ≤ b)
          × (b + length (after ds (drop_delims ds xs)) ≡ s + length xs)
          × SameBut s (length xs) m m')
unfolding strtok
strtok-word k backup m src d s xs ds start ne delims t lt lt' =
    given (skip_delims-drop_delims k d ds lt k m s xs delims t lt')
      λ (s', skip, low, t', len). split s' (drop_delims ds xs) skip low t' len
  where
    split :
        (s' : ℕ) (ys : List ℕ)
        → skip_delims k k m s d ≡ some s'
        → s ≤ s'
        → CString m s' ys
        → s' + length ys ≡ s + length xs
        → ((ys ≡ []) × (strtok k backup m src d ≡ some (0, backup, m)))
          ⊎ ((ys ≢ [])
              × (t : ℕ) × (b : ℕ) × (m' : Bytes) × (strtok k backup m src d ≡ some (t, b, m'))
              × (s ≤ t)
              × CString m' t (word ds ys)
              × CString m' b (after ds ys)
              × (t ≤ b)
              × (b + length (after ds ys) ≡ s + length xs)
              × SameBut s (length xs) m m')
    split s' [] skip low e len =
        inl (refl, strtok-start k backup m src d s start ne ∙ rw skip (ground arith))
    split s' (y ∷ ys) skip low (e, ne', t') len =
        given (end_token-Ended k d ds lt k m s' s' (y ∷ ys) delims (e, ne', t') (omega arith))
          λ (b, m', run, (w, a, le, len', same)). inr (
            cons_ne,
            s',
            b,
            m',
            strtok-start k backup m src d s start ne ∙ rw (skip, go e ne') run,
            low,
            w,
            a,
            le,
            omega arith,
            λ q out. same q (ground arith),
          )
      where
        cons_ne : y ∷ ys ≢ []
        cons_ne e = cc

        go : m s' ≡ y → y ≢ 0 → (m s' == 0) ≡ false
        go e ne = ground arith
