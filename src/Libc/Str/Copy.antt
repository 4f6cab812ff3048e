-- ===== src/Libc/Str/Copy.antt =====
-- strlen, and the functions that copy strings.
use wyrm_os.Base.{
  ℕ, zero, suc, ◌+◌, ◌≤◌, ◌<◌, ◌≡◌, ◌≢◌, ◌∙◌, ◌⊎◌, refl, ap, true, false, some, List, [], ◌∷◌, ◌++◌,
  length, take, length-take, ◌==◌, arith,
}
use wyrm_os.Libc.Bytes.{Bytes, store, CString, SameBut, CString-same, CString-end, CString-append}
use wyrm_os.Libc.Str.{to_end, strlen, strcpy_loop, strcpy, strncpy_loop, strncpy, strcat}

pub to_end-length :
    (k : ℕ) (m : Bytes) (s : ℕ) (xs : List ℕ)
    → CString m s xs
    → length xs < k
    → to_end k m s ≡ some (s + length xs)
unfolding to_end
to_end-length zero m s xs t lt = absurd (omega arith)
to_end-length (suc k) m s [] e lt = ground arith
to_end-length (suc k) m s (x ∷ xs) (e, ne, t) lt =
    let rest = to_end-length k m (s + 1) xs t (omega arith) in ground arith

-- strlen is the number of bytes before the NUL, given more rounds than that.
pub strlen-length :
    (k : ℕ) (m : Bytes) (s : ℕ) (xs : List ℕ)
    → CString m s xs
    → length xs < k
    → strlen k m s ≡ some (length xs)
unfolding strlen
strlen-length k m s xs t lt = rw (to_end-length k m s xs t lt) (ap some (omega arith))

-- What a copy of the string `xs` to `d` leaves.
abbrev pub Copied : Bytes → ℕ → List ℕ → Bytes → Type 0
Copied m d xs m' = CString m' d xs × SameBut d (suc (length xs)) m m'

strcpy_loop-Copied :
    (k : ℕ) (m : Bytes) (d s : ℕ) (xs : List ℕ)
    → CString m s xs
    → length xs < k
    → (d ≤ s) ⊎ (s + length xs < d)
    → (m' : Bytes) × (strcpy_loop k m d s ≡ some m') × Copied m d xs m'
unfolding strcpy_loop
strcpy_loop-Copied zero m d s xs t lt apart = absurd (omega arith)
strcpy_loop-Copied (suc k) m d s [] e lt apart =
    (store m d 0, ground arith, (ground arith, λ q out. ground arith))
strcpy_loop-Copied (suc k) m d s (x ∷ xs) (e, ne, t) lt apart =
    let (m', run, (copy, same)) =
      strcpy_loop-Copied k (store m d (m s)) (d + 1) (s + 1) xs
        (CString-same (s + 1) xs t (λ q low high. ground arith)) (omega arith) (ground arith) in
    (
      m',
      ground arith,
      (
        (same d (ground arith) ∙ ground arith, ne, copy),
        λ q out. same q (ground arith) ∙ ground arith,
      ),
    )

-- strcpy copies the string and nothing else, where the destination does not begin inside the source
-- behind its first byte, and returns the destination; more rounds than the string has bytes are
-- enough.
pub strcpy-Copied :
    (k : ℕ) (m : Bytes) (d s : ℕ) (xs : List ℕ)
    → d ≢ 0
    → CString m s xs
    → length xs < k
    → (d ≤ s) ⊎ (s + length xs < d)
    → (m' : Bytes) × (strcpy k m d s ≡ some (d, m')) × Copied m d xs m'
unfolding strcpy
strcpy-Copied k m d s xs ne t lt apart =
    let (m', run, post) = strcpy_loop-Copied k m d s xs t lt apart in
    let not_null : (d == 0) ≡ false = ground arith in (m', rw (not_null, run) refl, post)

is_end : (m : Bytes) (s : ℕ) → m s ≡ 0 → (m s == 0) ≡ true
is_end m s e = ground arith

moved : (P : Bytes → Type 0) {a b : Bytes} → a ≡ b → P b → P a
moved P e p = rw e p

step :
    (m : Bytes) (d s num : ℕ)
    → (m s == 0) ≡ false
    → strncpy_loop m d s (suc num) ≡ strncpy_loop (store m d (m s)) (d + 1) (s + 1) num
unfolding strncpy_loop
step m d s num more = ground arith

-- What strncpy and strncat copy: `num` bytes of the string at most, and a NUL behind them.
strncpy_loop-Copied :
    (m : Bytes) (d s : ℕ) (xs : List ℕ) (num : ℕ)
    → CString m s xs
    → (d ≤ s) ⊎ (s + length xs < d)
    → Copied m d (take num xs) (strncpy_loop m d s num)
unfolding strncpy_loop
strncpy_loop-Copied m d s [] zero t apart = (ground arith, λ q out. ground arith)
strncpy_loop-Copied m d s (x ∷ xs) zero t apart = (ground arith, λ q out. ground arith)
strncpy_loop-Copied m d s [] (suc num) e apart =
    rw (is_end m s e) (ground arith, λ q out. ground arith)
strncpy_loop-Copied m d s (x ∷ xs) (suc num) (e, ne, t) apart =
    let (copy, same) =
      strncpy_loop-Copied (store m d (m s)) (d + 1) (s + 1) xs num
        (CString-same (s + 1) xs t (λ q low high. ground arith)) (ground arith) in
    let more : (m s == 0) ≡ false = ground arith in
    moved (Copied m d (x ∷ take num xs)) (step m d s num more) (
      (same d (ground arith) ∙ ground arith, ne, copy),
      λ q out. same q (ground arith) ∙ ground arith,
    )

-- strncpy copies the first `num` bytes of the string, or all of a shorter one, and a NUL behind them,
-- changes nothing else and returns the destination.
pub strncpy-take :
    (m : Bytes) (d s : ℕ) (xs : List ℕ) (num : ℕ)
    → d ≢ 0
    → CString m s xs
    → (d ≤ s) ⊎ (s + length xs < d)
    → ((strncpy m d s num).0 ≡ d) × Copied m d (take num xs) (strncpy m d s num).1
unfolding strncpy
strncpy-take m d s xs num ne t apart =
    let not_null : (d == 0) ≡ false = ground arith in
    rw not_null (refl, strncpy_loop-Copied m d s xs num t apart)

-- A string of `num` bytes or more makes strncpy write a NUL behind the `num` bytes of the
-- destination.
pub strncpy-overrun :
    (m : Bytes) (d s : ℕ) (xs : List ℕ) (num : ℕ)
    → d ≢ 0
    → CString m s xs
    → (d ≤ s) ⊎ (s + length xs < d)
    → num ≤ length xs
    → (strncpy m d s num).1 (d + num) ≡ 0
strncpy-overrun m d s xs num ne t apart long =
    let (_, (copy, _)) = strncpy-take m d s xs num ne t apart in
    let e = CString-end _ d (take num xs) copy in rw (length-take num xs long) at e

-- strcat appends the source string to the destination string, where the bytes it writes are not
-- those of the source, changes nothing else and returns the destination; more rounds than either
-- string has bytes are enough.
pub strcat-append :
    (k : ℕ) (m : Bytes) (d s : ℕ) (ys xs : List ℕ)
    → CString m d ys
    → CString m s xs
    → length ys < k
    → length xs < k
    → (d + length ys ≤ s) ⊎ (s + length xs < d + length ys)
    → (m' : Bytes) × (strcat k m d s ≡ some (d, m'))
      × CString m' d (ys ++ xs)
      × SameBut (d + length ys) (suc (length xs)) m m'
unfolding strcat
strcat-append k m d s ys xs dest t lt lt' apart =
    let (m', run, (copy, same)) = strcpy_loop-Copied k m (d + length ys) s xs t lt' apart in
    (
      m',
      rw (to_end-length k m d ys dest lt, run) refl,
      CString-append _ d ys xs dest same copy,
      same,
    )
