-- ===== src/Libc/Tests.antt =====
-- The C library's functions on a small memory.
use wyrm_os.Base.{ℕ, ◌≡◌, refl, List, [], ◌∷◌, ◌==◌, if◌then◌else◌, arith}
use wyrm_os.Libc.Number.{atoi}
use wyrm_os.Libc.Bytes.{Bytes, CString}

-- "a/bc" at 10, "/" at 20, "bc" at 30
abbrev memory : Bytes
memory q =
    if q == 10
    then 97
    else if q == 11
    then 47
    else if q == 12
    then 98
    else if q == 13
    then 99
    else if q == 20
    then 47
    else if q == 30
    then 98
    else if q == 31
    then 99
    else 0

abbrev a_bc : List ℕ
a_bc = 97 ∷ 47 ∷ 98 ∷ 99 ∷ []

abbrev bc : List ℕ
bc = 98 ∷ 99 ∷ []

at_10 : CString memory 10 a_bc
at_10 = (refl, omega arith, (refl, omega arith, (refl, omega arith, (refl, omega arith, refl))))

at_20 : CString memory 20 (47 ∷ [])
at_20 = (refl, omega arith, refl)

at_30 : CString memory 30 bc
at_30 = (refl, omega arith, (refl, omega arith, refl))

-- "-5": 25
five_below : atoi (45 ∷ 53 ∷ []) ≡ 25
unfolding atoi
five_below = refl
