-- ===== src/Libc/Env.antt =====
-- lib/libc/stdlib/env.c, on strings as lists of their bytes: `environ` is its `__envc` strings, with
-- NULL behind the last one. `strstr(s, name) == s` is a test for a prefix.
pub mod RoundTrip
mod Tests
use wyrm_os.Base.{
  ℕ, zero, suc, ◌+◌, Bool, true, false, Option, none, some, List, [], ◌∷◌, ◌++◌, length, ◌==◌,
  if◌then◌else◌,
}
use wyrm_os.Base.Fail.{◌>>=◌}
use wyrm_os.Libc.Str.Search.{prefix}

-- The bytes from `n` on
unfoldable pub skip : (n : ℕ) → List ℕ → List ℕ
skip zero s = s
skip (suc n) [] = []
skip (suc n) (c ∷ s) = skip n s

-- `none` is the NULL behind the last string, which is followed.
pub getenv : List (List ℕ) → (name : List ℕ) → Option (List ℕ)
unfolding skip
getenv [] name = none
getenv (s ∷ rest) name = if prefix name s then some (skip (length name + 1) s) else getenv rest name

unfoldable pub behind_first : List ℕ → List (List ℕ) → List (List ℕ)
behind_first s [] = s ∷ []
behind_first s (l ∷ init) = l ∷ s ∷ init

-- The last string in front of those before it
unfoldable pub last_first : List ℕ → List (List ℕ) → List (List ℕ)
unfolding behind_first
last_first s [] = s ∷ []
last_first s (t ∷ rest) = behind_first s (last_first t rest)

-- The last string takes the place of the one that is removed.
unfoldable pub take_out : List (List ℕ) → List (List ℕ)
unfolding last_first
take_out [] = []
take_out (s ∷ rest) = last_first s rest

pub unsetenv : (name : List ℕ) → List (List ℕ) → List (List ℕ)
unfolding take_out
unsetenv name [] = []
unsetenv name (s ∷ rest) =
    let others = unsetenv name rest in if prefix name s then take_out rest else s ∷ others

-- `strchr(string, '=')`: what stands before it
unfoldable pub before_equals : List ℕ → Option (List ℕ)
before_equals [] = none
before_equals (c ∷ s) =
    let rest = before_equals s in if c == 61 then some [] else (do name ← rest; some (c ∷ name))

-- The result and the strings
pub putenv : (string : List ℕ) → List (List ℕ) → ℕ × List (List ℕ)
unfolding before_equals unsetenv
putenv string e = elim (before_equals string) [
  | none ↦ (1, e)
  | some name ↦ (0, unsetenv name e ++ (string ∷ []))
]

-- `junk` is what malloc has left in front of the first 0 of the new string. `none` is a NULL that is
-- followed.
pub setenv :
    (junk name value : List ℕ) → (overwrite : Bool) → List (List ℕ) → Option (ℕ × List (List ℕ))
unfolding getenv putenv
setenv junk name value true e = some (putenv (junk ++ (name ++ (61 ∷ value))) e)
setenv junk name value false e = elim (getenv e name) [ none ↦ none | some old ↦ some (0, e) ]
