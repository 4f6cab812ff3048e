-- ===== src/Libc/Str/Compare.antt =====
-- strcmp and strncmp.
use wyrm_os.Base.{
  ℕ, zero, suc, ◌+◌, ◌<◌, ◌≡◌, ◌∙◌, ◌↔◌, refl, ap, sym, some, List, [], ◌∷◌, length, take, ◌==◌,
  if◌then◌else◌, arith, given, ℤ, pos, diff,
}
use wyrm_os.Libc.Bytes.{Bytes, CString}
use wyrm_os.Libc.Str.{strcmp, strncmp}

-- The order of two strings by their bytes: the difference at the first place where they are not the
-- same, a string's end counting as 0.
unfoldable pub compare_strings : List ℕ → List ℕ → ℤ
compare_strings [] [] = pos 0
compare_strings [] (y ∷ ys) = diff 0 y
compare_strings (x ∷ xs) [] = diff x 0
compare_strings (x ∷ xs) (y ∷ ys) = if x == y then compare_strings xs ys else diff x y

-- any number of rounds above the length of the first string is enough
pub strcmp_rounds :
    (k : ℕ) (m : Bytes) (s1 s2 : ℕ) (xs ys : List ℕ)
    → length xs < k
    → CString m s1 xs
    → CString m s2 ys
    → strcmp k m s1 s2 ≡ some (compare_strings xs ys)
unfolding strcmp compare_strings
strcmp_rounds zero m s1 s2 xs ys enough e e' = absurd (omega arith)
strcmp_rounds (suc k) m s1 s2 [] [] enough e e' = ground arith
strcmp_rounds (suc k) m s1 s2 [] (y ∷ ys) enough e (e', ne', t') = ground arith
strcmp_rounds (suc k) m s1 s2 (x ∷ xs) [] enough (e, ne, t) e' = ground arith
strcmp_rounds (suc k) m s1 s2 (x ∷ xs) (y ∷ ys) enough (e, ne, t) (e', ne', t') =
    let rest = strcmp_rounds k m (s1 + 1) (s2 + 1) xs ys (omega arith) t t' in ground arith

-- strcmp compares the strings by their bytes; one round more than the first is long is enough.
pub strcmp-compare_strings :
    (m : Bytes) (s1 s2 : ℕ) (xs ys : List ℕ)
    → CString m s1 xs
    → CString m s2 ys
    → strcmp (suc (length xs)) m s1 s2 ≡ some (compare_strings xs ys)
strcmp-compare_strings m s1 s2 xs ys t t' =
    strcmp_rounds (suc (length xs)) m s1 s2 xs ys (omega arith) t t'

-- strncmp is strcmp of the first `n` bytes.
pub strncmp-take :
    (m : Bytes) (s1 s2 n : ℕ) (xs ys : List ℕ)
    → CString m s1 xs
    → CString m s2 ys
    → strncmp m s1 s2 n ≡ compare_strings (take n xs) (take n ys)
unfolding strncmp compare_strings
strncmp-take m s1 s2 zero xs ys t t' = refl
strncmp-take m s1 s2 (suc n) [] [] e e' = ground arith
strncmp-take m s1 s2 (suc n) [] (y ∷ ys) e (e', ne', t') = ground arith
strncmp-take m s1 s2 (suc n) (x ∷ xs) [] (e, ne, t) e' = ground arith
strncmp-take m s1 s2 (suc n) (x ∷ xs) (y ∷ ys) (e, ne, t) (e', ne', t') =
    let rest = strncmp-take m (s1 + 1) (s2 + 1) n xs ys t t' in ground arith

compare_strings_self : (ys : List ℕ) → compare_strings ys ys ≡ pos 0
unfolding compare_strings
compare_strings_self [] = refl
compare_strings_self (y ∷ ys) = let rest = compare_strings_self ys in ground arith

compare_strings-eq :
    (m : Bytes) (s1 s2 : ℕ) (xs ys : List ℕ)
    → CString m s1 xs
    → CString m s2 ys
    → compare_strings xs ys ≡ pos 0
    → xs ≡ ys
unfolding compare_strings
compare_strings-eq m s1 s2 [] [] t t' z = refl
compare_strings-eq m s1 s2 [] (y ∷ ys) e (e', ne', t') z = absurd (ground arith)
compare_strings-eq m s1 s2 (x ∷ xs) [] (e, ne, t) e' z = absurd (ground arith)
compare_strings-eq m s1 s2 (x ∷ xs) (y ∷ ys) (e, ne, t) (e', ne', t') z =
    let same : x ≡ y = ground arith in
    let z' : compare_strings xs ys ≡ pos 0 = ground arith in
    let rest = compare_strings-eq m (s1 + 1) (s2 + 1) xs ys t t' z' in cc

-- strcmp returns 0 exactly for equal strings.
pub strcmp_iff :
    (m : Bytes) (s1 s2 : ℕ) (xs ys : List ℕ)
    → CString m s1 xs
    → CString m s2 ys
    → (strcmp (suc (length xs)) m s1 s2 ≡ some (pos 0)) ↔ (xs ≡ ys)
strcmp_iff m s1 s2 xs ys t t' = given (strcmp-compare_strings m s1 s2 xs ys t t') λ run. (
  λ e. compare_strings-eq m s1 s2 xs ys t t' (some_injective (sym run ∙ e)),
  λ e. run ∙ ap some (rw e (compare_strings_self ys)),
)
  where
    some_injective : {a b : ℤ} → some a ≡ some b → a ≡ b
    some_injective e = cc
