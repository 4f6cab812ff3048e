-- ===== src/Fs/Path.antt =====
-- kernel/fs/path.c. `path_parse` works on a byte memory, with the address that strdup gets from malloc
-- and strtok's static pointer as arguments, and a bound `k` on the rounds of each loop. The parts of a path are their bytes.
pub mod Split
pub mod Build
mod Tests
use wyrm_os.Base.{
  ℕ, zero, suc, ◌+◌, ◌-◌, ◌≡◌, Bool, true, false, Option, none, some, List, [], ◌∷◌, ◌++◌, length,
  ◌==◌, if◌then◌else◌,
}
use wyrm_os.Base.Fail.{◌>>=◌}
use wyrm_os.Libc.Bytes.{Bytes, store}
use wyrm_os.Libc.Str.{strlen, strcpy, strtok}

-- `path`; `dir` is the flag P_DIR.
pub record FsPath : Type 0 where
  pub parts : List (List ℕ)
  pub dir : Bool

-- '/'
abbrev pub slash : ℕ
slash = 47

-- The bytes that `strdup(p)` copies.
pub read : ℕ → Bytes → ℕ → Option (List ℕ)
read zero m p = none
read (suc k) m p =
    let rest = read k m (p + 1) in if m p == 0 then some [] else do xs ← rest; some (m p ∷ xs)

-- The address of the last byte of the `n` bytes at `part`; the sum wraps around where n is 0.
abbrev last_byte : ℕ → ℕ → ℕ
last_byte part n = part + n - 1

-- A '/' at the end of a part is cut off.
abbrev trim : Bytes → (part n : ℕ) → Bytes
trim m part n = if m (last_byte part n) == slash then store m (last_byte part n) 0 else m

-- `while(part)`: `r` rounds at most; `delim` is the address of the string "/".
pub parse_loop : ℕ → ℕ → ℕ → Bytes → (part delim : ℕ) → Option (List (List ℕ))
parse_loop zero k backup m part delim = none
parse_loop (suc r) k backup m part delim = if part == 0 then some [] else do
  n ← strlen k m part
  let m' = trim m part n
  xs ← read k m' part
  (part', backup', m'') ← strtok k backup m' 0 delim
  rest ← parse_loop r k backup' m'' part' delim
  some (xs ∷ rest)

pub path_parse : ℕ → (fresh backup : ℕ) → Bytes → (path delim : ℕ) → Option FsPath
unfolding parse_loop
path_parse k fresh backup m path delim = do
  (pathstr, m') ← strcpy k m fresh path
  (part, backup', m'') ← strtok k backup m' pathstr delim
  parts ← parse_loop k k backup' m'' part delim
  some (record { parts = parts; dir = false })

-- The size that path_build asks malloc for.
pub required_size : List (List ℕ) → ℕ
required_size [] = 1
required_size (pr ∷ prs) = 1 + length pr + required_size prs

-- The loop that appends each part and a '/' to the string `built` so far.
pub build_loop : List ℕ → List (List ℕ) → List ℕ
build_loop built [] = built
build_loop built (pr ∷ prs) = build_loop ((built ++ pr) ++ (slash ∷ [])) prs

-- The string without its last byte; `none` where it is empty: the byte before the buffer is written.
pub cut_last : List ℕ → Option (List ℕ)
cut_last [] = none
cut_last (x ∷ []) = some []
cut_last (x ∷ y ∷ xs) = do zs ← cut_last (y ∷ xs); some (x ∷ zs)

unfoldable pub path_build : FsPath → Option (List ℕ)
unfolding build_loop cut_last
path_build p = let path = build_loop [] p.parts in if p.dir then some path else cut_last path

-- The last part, and the parts before it.
pub pop_last : List (List ℕ) → Option (List (List ℕ) × List ℕ)
pop_last [] = none
pop_last (x ∷ []) = some ([], x)
pop_last (x ∷ y ∷ xs) = do (init, last) ← pop_last (y ∷ xs); some (x ∷ init, last)

-- `none` is NULL.
unfoldable pub path_filename : FsPath → Option (List ℕ)
unfolding pop_last
path_filename p = do (_, last) ← pop_last p.parts; some last

-- The part that is popped is appended again. `none` where there is none: list_append follows NULL.
pub path_folder : FsPath → Option (List ℕ × FsPath)
unfolding pop_last path_build
path_folder p = do
  (init, last) ← pop_last p.parts
  path ← path_build (record { parts = init; dir = p.dir })
  some (path, record { parts = init ++ (last ∷ []); dir = p.dir })

unfoldable pub last_is_slash : List ℕ → Bool
last_is_slash [] = false
last_is_slash (x ∷ []) = x == slash
last_is_slash (x ∷ y ∷ xs) = last_is_slash (y ∷ xs)

-- `none` where the part is empty: the byte before the copy is read.
pub path_join : FsPath → List ℕ → Option FsPath
unfolding last_is_slash cut_last
path_join p [] = none
path_join p (c ∷ cs) =
    if last_is_slash (c ∷ cs)
    then (do part ← cut_last (c ∷ cs); some (record { parts = p.parts ++ (part ∷ []); dir = true }))
    else some (record { parts = p.parts ++ ((c ∷ cs) ∷ []); dir = false })
