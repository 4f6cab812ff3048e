-- ===== src/Libc/Env/RoundTrip.antt =====
-- What getenv finds behind putenv.
use wyrm_os.Base.{
  ℕ, suc, ◌+◌, ◌≡◌, ◌≢◌, ◌⊎◌, inl, inr, refl, ap, true, false, some, List, [], ◌∷◌, ◌++◌, length,
  ◌==◌, arith, Bool-cases,
}
use wyrm_os.Libc.Str.Search.{prefix}
use wyrm_os.Libc.Env.{
  skip, getenv, behind_first, last_first, take_out, unsetenv, before_equals, putenv,
}

-- No string begins with `name`.
abbrev pub NoneBegins : (name : List ℕ) → List (List ℕ) → Type 0
NoneBegins name [] = Unit {0}
NoneBegins name (s ∷ rest) = (prefix name s ≡ false) × NoneBegins name rest

-- `s` is one of the strings.
abbrev pub Has : (s : List ℕ) → List (List ℕ) → Type 0
Has s [] = ⊥
Has s (t ∷ rest) = (t ≡ s) ⊎ Has s rest

-- A name has no '='.
abbrev pub IsName : List ℕ → Type 0
IsName [] = Unit {0}
IsName (c ∷ name) = (c ≢ 61) × IsName name

prefix-append : (name value : List ℕ) → prefix name (name ++ value) ≡ true
unfolding prefix
prefix-append [] value = refl
prefix-append (c ∷ name) value =
    let self : (c == c) ≡ true = ground arith in rw self (prefix-append name value)

skip-append : (name value : List ℕ) (c : ℕ) → skip (suc (length name)) (name ++ (c ∷ value)) ≡ value
unfolding skip
skip-append [] value c = refl
skip-append (d ∷ name) value c = skip-append name value c

before_equals-append :
    (name value : List ℕ) → IsName name → before_equals (name ++ (61 ∷ value)) ≡ some name
unfolding before_equals
before_equals-append [] value n = refl
before_equals-append (c ∷ name) value (ne, n) =
    let other : (c == 61) ≡ false = ground arith in
    rw (other, before_equals-append name value n) refl

getenv-append :
    (e : List (List ℕ)) (name value : List ℕ)
    → NoneBegins name e
    → getenv (e ++ ((name ++ (61 ∷ value)) ∷ [])) name ≡ some value
unfolding getenv
getenv-append [] name value n =
    let next : length name + 1 ≡ suc (length name) = omega arith in
    rw (prefix-append name (61 ∷ value), next) (ap some (skip-append name value 61))
getenv-append (s ∷ e) name value (no', n) = rw no' (getenv-append e name value n)

Has-append : (s : List ℕ) (e f : List (List ℕ)) → Has s e → Has s (e ++ f)
Has-append s [] f h = absurd h
Has-append s (t ∷ e) f (inl h) = inl h
Has-append s (t ∷ e) f (inr h) = inr (Has-append s e f h)

Has-behind_first : (s t : List ℕ) (e : List (List ℕ)) → (t ≡ s) ⊎ Has s e → Has s (behind_first t e)
unfolding behind_first
Has-behind_first s t [] h = h
Has-behind_first s t (l ∷ init) (inl h) = inr (inl h)
Has-behind_first s t (l ∷ init) (inr (inl h)) = inl h
Has-behind_first s t (l ∷ init) (inr (inr h)) = inr (inr h)

Has-last_first : (s t : List ℕ) (e : List (List ℕ)) → Has s (t ∷ e) → Has s (last_first t e)
unfolding last_first
Has-last_first s t [] h = h
Has-last_first s t (u ∷ e) (inl h) = Has-behind_first s t (last_first u e) (inl h)
Has-last_first s t (u ∷ e) (inr h) =
    Has-behind_first s t (last_first u e) (inr (Has-last_first s u e h))

Has-take_out : (s : List ℕ) (e : List (List ℕ)) → Has s e → Has s (take_out e)
unfolding take_out
Has-take_out s [] h = absurd h
Has-take_out s (t ∷ e) h = Has-last_first s t e h

-- A string that does not begin with the name stays.
Has-unsetenv :
    (name s : List ℕ) (e : List (List ℕ))
    → prefix name s ≡ false
    → Has s e
    → Has s (unsetenv name e)
unfolding unsetenv
Has-unsetenv name s [] no' h = absurd h
Has-unsetenv name s (t ∷ e) no' h = elim (Bool-cases (prefix name t)) [
  | inr keeps ↦
      rw keeps (elim h [ inl here ↦ inl here | inr there ↦ inr (Has-unsetenv name s e no' there) ])
  | inl goes ↦ rw goes (elim h [
    | inl here ↦ absurd (cc (ap (λ (z : List ℕ). prefix name z) here, no', goes))
    | inr there ↦ Has-take_out s e there
  ])
]

-- putenv of a name, '=' and a value, where no second string begins with the name, succeeds: getenv of
-- the name then finds the value, and each string that does not begin with the name is still there.
pub putenv-getenv :
    (name value : List ℕ) (e : List (List ℕ))
    → IsName name
    → NoneBegins name (unsetenv name e)
    → (e' : List (List ℕ)) × (putenv (name ++ (61 ∷ value)) e ≡ (0, e'))
      × (getenv e' name ≡ some value)
      × ((s : List ℕ) → prefix name s ≡ false → Has s e → Has s e')
unfolding putenv
putenv-getenv name value e n none_left = (
  unsetenv name e ++ ((name ++ (61 ∷ value)) ∷ []),
  rw (putenv, before_equals-append name value n) refl,
  getenv-append (unsetenv name e) name value none_left,
  λ s no' h. Has-append s (unsetenv name e) _ (Has-unsetenv name s e no' h),
)
