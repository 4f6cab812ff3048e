-- ===== src/Libc/Env/Tests.antt =====
-- The environment A=1, B=2, AB=3, C=4, and the same without AB.
use wyrm_os.Base.{ℕ, ◌≡◌, refl, false, none, some, List, [], ◌∷◌, arith}
use wyrm_os.Libc.Str.Search.{prefix}
use wyrm_os.Libc.Env.{getenv, unsetenv, take_out, last_first, behind_first, putenv}
use wyrm_os.Libc.Env.RoundTrip.{Has, putenv-getenv}

abbrev entry_of : (c d : ℕ) → List ℕ
entry_of c d = c ∷ 61 ∷ d ∷ []

abbrev letters : List (List ℕ)
letters = entry_of 65 49 ∷ entry_of 66 50 ∷ entry_of 67 52 ∷ []

abbrev longer : List ℕ
longer = 65 ∷ 66 ∷ 61 ∷ 51 ∷ []

putenv-getenv_example :
    (e' : List (List ℕ)) × (putenv (65 ∷ 61 ∷ 57 ∷ []) letters ≡ (0, e'))
    × (getenv e' (65 ∷ []) ≡ some (57 ∷ []))
    × ((s : List ℕ) → prefix (65 ∷ []) s ≡ false → Has s letters → Has s e')
unfolding unsetenv take_out last_first behind_first prefix
putenv-getenv_example =
    putenv-getenv (65 ∷ []) (57 ∷ []) letters (omega arith, tt) (refl, (refl, tt))

-- unsetenv of A removes AB where that stands first.
longer_removed :
    unsetenv (65 ∷ []) (longer ∷ letters) ≡ entry_of 67 52 ∷ entry_of 65 49 ∷ entry_of 66 50 ∷ []
unfolding unsetenv take_out last_first behind_first prefix
longer_removed = refl

-- getenv of a name that is not there does not end at the NULL.
missing_name : getenv letters (68 ∷ []) ≡ none
unfolding getenv prefix
missing_name = refl
