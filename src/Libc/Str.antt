-- ===== src/Libc/Str.antt =====
-- lib/libc/string/string.c but strtol and strnstr, over a byte memory. A loop that ends at a NUL has
-- a bound `k` of rounds; `none` says that the rounds were not enough. Addresses do not wrap around.
pub mod Copy
pub mod Compare
pub mod Search
pub mod Token
use wyrm_os.Base.{
  ℕ, zero, suc, ◌+◌, ◌-◌, ◌%◌, Bool, true, false, not, ◌&&◌, Option, none, some, ◌==◌,
  if◌then◌else◌, ℤ, pos, diff,
}
use wyrm_os.Base.Fail.{◌>>=◌}
use wyrm_os.Libc.Bytes.{Bytes, store}

-- The address of the NUL that ends the string at `s`.
pub to_end : ℕ → Bytes → ℕ → Option ℕ
to_end zero m s = none
to_end (suc k) m s = let rest = to_end k m (s + 1) in if m s == 0 then some s else rest

pub strlen : ℕ → Bytes → ℕ → Option ℕ
strlen k m str = do s ← to_end k m str; some (s - str)

pub strcpy_loop : ℕ → Bytes → (destination source : ℕ) → Option Bytes
strcpy_loop zero m d s = none
strcpy_loop (suc k) m d s =
    let rest = strcpy_loop k (store m d (m s)) (d + 1) (s + 1) in
    if m s == 0 then some (store m d 0) else rest

pub strcpy : ℕ → Bytes → (destination source : ℕ) → Option (ℕ × Bytes)
strcpy k m d s = if d == 0 then some (0, m) else do m' ← strcpy_loop k m d s; some (d, m')

-- The loop ends with `num`, so that it needs no other bound.
pub strncpy_loop : Bytes → (destination source num : ℕ) → Bytes
strncpy_loop m d s zero = store m d 0
strncpy_loop m d s (suc num) =
    let rest = strncpy_loop (store m d (m s)) (d + 1) (s + 1) num in
    if m s == 0 then store m d 0 else rest

pub strncpy : Bytes → (destination source num : ℕ) → ℕ × Bytes
strncpy m d s num = if d == 0 then (0, m) else (d, strncpy_loop m d s num)

-- `strcat` and `strncat` do not test the destination for NULL, and copy with the same loops.
pub strcat : ℕ → Bytes → (destination source : ℕ) → Option (ℕ × Bytes)
strcat k m d s = do ptr ← to_end k m d; m' ← strcpy_loop k m ptr s; some (d, m')

pub strncat : ℕ → Bytes → (destination source num : ℕ) → Option (ℕ × Bytes)
strncat k m d s num = do ptr ← to_end k m d; some (d, strncpy_loop m ptr s num)

pub strcmp : ℕ → Bytes → (s1 s2 : ℕ) → Option ℤ
strcmp zero m s1 s2 = none
strcmp (suc k) m s1 s2 =
    let rest = strcmp k m (s1 + 1) (s2 + 1) in
    if not (m s1 == 0) && (m s1 == m s2) then rest else some (diff (m s1) (m s2))

pub strncmp : Bytes → (s1 s2 n : ℕ) → ℤ
strncmp m s1 s2 zero = pos 0
strncmp m s1 s2 (suc n) =
    let rest = strncmp m (s1 + 1) (s2 + 1) n in
    if not (m s1 == 0) && (m s1 == m s2) then rest else diff (m s1) (m s2)

-- The inner loop of strstr: whether the string at `b` is a prefix of the one at `a`.
pub strstr_match : ℕ → Bytes → (a b : ℕ) → Option Bool
strstr_match zero m a b = none
strstr_match (suc k) m a b =
    let rest = strstr_match k m (a + 1) (b + 1) in
    if m b == 0 then some true else if m a == m b then rest else some false

-- The outer loop, over the positions of the string.
pub strstr_loop : ℕ → ℕ → Bytes → (string b : ℕ) → Option ℕ
unfolding strstr_match
strstr_loop zero j m s b = none
strstr_loop (suc k) j m s b =
    let rest = strstr_loop k j m (s + 1) b in
    if m s == 0
    then some 0
    else if not (m s == m b)
    then rest
    else elim (strstr_match j m s b) [ none ↦ none | some found ↦ if found then some s else rest ]

pub strstr : ℕ → Bytes → (string substring : ℕ) → Option ℕ
unfolding strstr_loop
strstr k m s b = if m b == 0 then some s else strstr_loop k k m s b

-- `c` is converted to a char.
pub strchr : ℕ → Bytes → (s c : ℕ) → Option ℕ
strchr zero m s c = none
strchr (suc k) m s c =
    let rest = strchr k m (s + 1) c in
    if m s == c % 256 then some s else if m s == 0 then some 0 else rest

pub strchrnul : ℕ → Bytes → (s c : ℕ) → Option ℕ
strchrnul zero m s c = none
strchrnul (suc k) m s c =
    let rest = strchrnul k m (s + 1) c in
    if m s == 0 then some s else if c == m s then some s else rest

pub is_delim : ℕ → Bytes → (c delim : ℕ) → Option Bool
is_delim zero m c d = none
is_delim (suc k) m c d =
    let rest = is_delim k m c (d + 1) in
    if m d == 0 then some false else if c == m d then some true else rest

-- The first loop of strtok skips delimiters: none of the rounds are left, or the first other byte.
pub skip_delims : ℕ → ℕ → Bytes → (s delim : ℕ) → Option ℕ
unfolding is_delim
skip_delims zero j m s d = none
skip_delims (suc k) j m s d =
    let rest = skip_delims k j m (s + 1) d in
    elim (is_delim j m (m s) d) [ none ↦ none | some b ↦ if b then rest else some s ]

-- The second loop ends the token that starts at `ret`; beside it the new `backup_string`.
pub end_token : ℕ → ℕ → Bytes → (ret s delim : ℕ) → Option (ℕ × ℕ × Bytes)
unfolding is_delim
end_token zero j m ret s d = none
end_token (suc k) j m ret s d =
    let rest = end_token k j m ret (s + 1) d in
    if m s == 0 then some (ret, s, m) else elim (is_delim j m (m s) d) [
      | none ↦ none
      | some b ↦ if b then some (ret, s + 1, store m s 0) else rest
    ]

-- The token (0 where there is none), the static `backup_string`, and the memory.
pub strtok : ℕ → (backup_string : ℕ) → Bytes → (src delim : ℕ) → Option (ℕ × ℕ × Bytes)
unfolding skip_delims end_token
strtok k backup m src d =
    let s = if src == 0 then backup else src in
    if s == 0 then some (0, backup, m) else do
      s' ← skip_delims k k m s d
      if m s' == 0 then some (0, backup, m) else end_token k k m s' s' d
