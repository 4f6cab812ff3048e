-- ===== src/Fs/Path/Tests.antt =====
-- Paths at concrete strings.
use wyrm_os.Base.{ℕ, ◌≡◌, inl, refl, false, some, List, [], ◌∷◌, ◌==◌, if◌then◌else◌, arith}
use wyrm_os.Libc.Bytes.{Bytes, CString}
use wyrm_os.Fs.Path.{FsPath, slash, path_parse, path_build}
use wyrm_os.Fs.Path.Split.{components, path_parse-components}
use wyrm_os.Fs.Path.Build.{path_build-components}

-- "/a//b" at 10 and "/" at 20
abbrev memory : Bytes
memory q =
    if q == 10
    then 47
    else if q == 11
    then 97
    else if q == 12
    then 47
    else if q == 13
    then 47
    else if q == 14
    then 98
    else if q == 20
    then 47
    else 0

abbrev text : List ℕ
text = 47 ∷ 97 ∷ 47 ∷ 47 ∷ 98 ∷ []

at_10 : CString memory 10 text
at_10 = (
  refl,
  omega arith,
  (refl, omega arith, (refl, omega arith, (refl, omega arith, (refl, omega arith, refl)))),
)

at_20 : CString memory 20 (slash ∷ [])
at_20 = (refl, omega arith, refl)

-- a/b
abbrev two_parts : FsPath
two_parts = record { parts = (97 ∷ []) ∷ (98 ∷ []) ∷ []; dir = false }

two_components : components (slash ∷ []) text ≡ two_parts.parts
two_components = refl

built : path_build two_parts ≡ some (97 ∷ 47 ∷ 98 ∷ [])
unfolding path_build
built = refl

path_parse-components_example :
    path_parse 6 40 0 memory 10 20
    ≡ some (record { parts = components (slash ∷ []) text; dir = false })
path_parse-components_example =
    path_parse-components 6 40 0 memory 10 20 text (omega arith) at_10 at_20 (inl (omega arith))
      (inl (omega arith)) (omega arith) (omega arith)

path_build-components_example :
    components (slash ∷ []) (97 ∷ 47 ∷ 98 ∷ []) ≡ (97 ∷ []) ∷ (98 ∷ []) ∷ []
path_build-components_example =
    path_build-components two_parts (97 ∷ 47 ∷ 98 ∷ []) (omega arith, (omega arith, tt)) built
