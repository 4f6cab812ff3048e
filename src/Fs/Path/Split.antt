-- ===== src/Fs/Path/Split.antt =====
-- path_parse against the list of the parts of a path.
use wyrm_os.Base.{
  ℕ, zero, suc, ◌+◌, ◌-◌, ◌≤◌, ◌<◌, ◌≡◌, ◌≢◌, ◌∙◌, ◌⊎◌, inl, inr, refl, ap, false, Option, some,
  List, [], ◌∷◌, length, ◌==◌, if◌then◌else◌, arith, Bool-cases, given,
}
use wyrm_os.Base.Fail.{◌>>=◌, bind-bind}
use wyrm_os.Libc.Bytes.{Bytes, CString, CString-same}
use wyrm_os.Libc.Str.{strtok}
use wyrm_os.Libc.Str.Copy.{strlen-length, strcpy-Copied}
use wyrm_os.Libc.Str.Token.{one_of, drop_delims, word, after, strtok-word}
use wyrm_os.Fs.Path.{FsPath, slash, read, parse_loop, path_parse}

-- A word in front of other words, where it is not empty.
abbrev pub cons_word : List ℕ → List (List ℕ) → List (List ℕ)
cons_word [] ws = ws
cons_word (c ∷ w) ws = (c ∷ w) ∷ ws

-- The bytes before the first delimiter, and the non-empty words behind it.
abbrev pub words : List ℕ → List ℕ → List ℕ × List (List ℕ)
words ds [] = ([], [])
words ds (x ∷ xs) =
    let (w, ws) = words ds xs in if one_of x ds then ([], cons_word w ws) else (x ∷ w, ws)

-- The non-empty words between the delimiters `ds` of `xs`, in order.
abbrev pub components : List ℕ → List ℕ → List (List ℕ)
components ds xs = cons_word (words ds xs).0 (words ds xs).1

rest-same :
    (ds : List ℕ) (x : ℕ) (xs : List ℕ)
    → one_of x ds ≡ false
    → components ds (x ∷ xs) ≡ components ds (drop_delims ds (x ∷ xs))
rest-same ds x xs no' =
    let same : x ∷ xs ≡ drop_delims ds (x ∷ xs) = rw no' refl in ap (components ds) same

components-drop : (ds xs : List ℕ) → components ds xs ≡ components ds (drop_delims ds xs)
components-drop ds [] = refl
components-drop ds (x ∷ xs) = elim (Bool-cases (one_of x ds)) [
  | inl yes' ↦ rw yes' (components-drop ds xs)
  | inr no' ↦ rest-same ds x xs no'
]

words-word : (ds xs : List ℕ) → words ds xs ≡ (word ds xs, components ds (after ds xs))
words-word ds [] = refl
words-word ds (x ∷ xs) = elim (Bool-cases (one_of x ds)) [
  | inl yes' ↦ rw yes' refl
  | inr no' ↦ rw (no', words-word ds xs) refl
]

length-after : (ds xs : List ℕ) → length (after ds xs) ≤ length xs
length-after ds [] = omega arith
length-after ds (x ∷ xs) = let rest = length-after ds xs in ground arith

length-word : (ds xs : List ℕ) → length (word ds xs) ≤ length xs
length-word ds [] = omega arith
length-word ds (x ∷ xs) = let rest = length-word ds xs in ground arith

-- A string with something but delimiters in it: its first word, which has no delimiter, and fewer
-- bytes behind it.
components-cons :
    (ds xs : List ℕ)
    → drop_delims ds xs ≢ []
    → (c : ℕ) × (w : List ℕ) × (word ds (drop_delims ds xs) ≡ c ∷ w)
      × (components ds xs ≡ (c ∷ w) ∷ components ds (after ds (drop_delims ds xs)))
      × (length (after ds (drop_delims ds xs)) < length xs)
      × (length (c ∷ w) ≤ length xs)
components-cons ds [] ne = absurd (ne refl)
components-cons ds (x ∷ xs) ne = elim (Bool-cases (one_of x ds)) [
  | inl yes' ↦
      let (c, w, e, e', lt, le) = components-cons ds xs (rw yes' at ne) in
      rw yes' (c, w, e, e', omega arith, omega arith)
  | inr no' ↦
      rw (no', no')
        (
          x,
          word ds xs,
          refl,
          ap (λ (p : List ℕ × List (List ℕ)). (x ∷ p.0) ∷ p.1) (words-word ds xs),
          omega (arith, length-after ds xs),
          omega (arith, length-word ds xs),
        )
]

read-length :
    (k : ℕ) (m : Bytes) (p : ℕ) (xs : List ℕ)
    → CString m p xs
    → length xs < k
    → read k m p ≡ some xs
unfolding read
read-length zero m p xs t lt = absurd (omega arith)
read-length (suc k) m p [] e lt = ground arith
read-length (suc k) m p (x ∷ xs) (e, ne, t) lt =
    let rest = read-length k m (p + 1) xs t (omega arith) in ground arith

-- What strtok and then the loop of path_parse do.
abbrev rounds : ℕ → ℕ → ℕ → Bytes → (src delim : ℕ) → Option (List (List ℕ))
rounds r k backup m src delim = do
  (part, backup', m') ← strtok k backup m src delim
  parse_loop r k backup' m' part delim

last-cons :
    (ds : List ℕ) (m : Bytes) (t x : ℕ) (w : List ℕ)
    → one_of x ds ≡ false
    → CString m t (x ∷ w)
    → (CString m (t + 1) w → 0 < length w → one_of (m (t + 1 + length w - 1)) ds ≡ false)
    → one_of (m (t + length (x ∷ w) - 1)) ds ≡ false
last-cons ds m t x [] no' (e, ne, s) rest = let at : t + 1 - 1 ≡ t = omega arith in rw (at, e) no'
last-cons ds m t x (y ∷ w) no' (e, ne, s) rest =
    let at : t + suc (suc (length w)) - 1 ≡ t + 1 + suc (length w) - 1 = omega arith in
    rw at (rest s (omega arith))

-- The last byte of a word is no delimiter, so that a part is not trimmed.
last-one_of :
    (ds : List ℕ) (m : Bytes) (t : ℕ) (xs : List ℕ)
    → CString m t (word ds xs)
    → 0 < length (word ds xs)
    → one_of (m (t + length (word ds xs) - 1)) ds ≡ false
last-one_of ds m t [] s pos' = absurd (omega arith)
last-one_of ds m t (x ∷ xs) s pos' = elim (Bool-cases (one_of x ds)) [
  | inl yes' ↦ absurd (empty (rw yes' at pos'))
  | inr no' ↦ rw no' (
      last-cons ds m t x (word ds xs) no' (rw no' at s)
        λ t' more. last-one_of ds m (t + 1) xs t' more)
]
  where
    empty : 0 < length {A = ℕ} [] → ⊥
    empty lt = omega arith

parse_loop-suc :
    (r k backup : ℕ) (m : Bytes) (p d : ℕ) (w : List ℕ) (ws : List (List ℕ))
    → p ≢ 0
    → CString m p w
    → length w < k
    → (m (p + length w - 1) == slash) ≡ false
    → rounds r k backup m 0 d ≡ some ws
    → parse_loop (suc r) k backup m p d ≡ some (w ∷ ws)
unfolding parse_loop
parse_loop-suc r k backup m p d w ws ne t lt whole rest =
    let go : (p == 0) ≡ false = ground arith in
    rw (go, strlen-length k m p w t lt, whole, read-length k m p w t lt)
      (bind-bind (strtok k backup m 0 d) (λ (part, backup', m'). parse_loop r k backup' m' part d)
          (λ ws. some (w ∷ ws))
        ∙ rw rest refl)

rounds-components :
    (r k backup : ℕ) (m : Bytes) (src d s : ℕ) (xs : List ℕ)
    → (if src == 0 then backup else src) ≡ s
    → s ≢ 0
    → CString m d (slash ∷ [])
    → CString m s xs
    → (d + 1 < s) ⊎ (s + length xs < d)
    → 1 < k
    → length xs < k
    → length xs < r
    → rounds r k backup m src d ≡ some (components (slash ∷ []) xs)
unfolding parse_loop
rounds-components zero k backup m src d s xs start ne delim t apart two lt lt' =
    absurd (omega arith)
rounds-components (suc r) k backup m src d s xs start ne delim t apart two lt lt' =
    elim (strtok-word k backup m src d s xs (slash ∷ []) start ne delim t two lt) [
      | inl (nil, run) ↦ rw (run, components-drop (slash ∷ []) xs, nil) refl
      | inr (some_left, p, b, m', run, low, w, rest, low', len, same) ↦
          given (components-cons (slash ∷ []) xs some_left) λ (c, cs, e, e', shorter, le).
            rw (run, e')
              (parse_loop-suc r k b m' p d (c ∷ cs) _ (ground arith) (rw e at w) (omega arith)
                (not_slash _ (clean m' p (c ∷ cs) (drop_delims (slash ∷ []) xs) e w (omega arith)))
                (rounds-components r k b m' 0 d b _ refl (ground arith)
                  (CString-same d (slash ∷ []) delim (λ q lo hi. same q (ground arith))) rest
                  (ground arith) two (omega arith) (omega arith)))
    ]
  where
    not_slash : (a : ℕ) → one_of a (slash ∷ []) ≡ false → (a == slash) ≡ false
    not_slash a e = ground arith

    clean :
        (m : Bytes) (p : ℕ) (w xs : List ℕ)
        → word (slash ∷ []) xs ≡ w
        → CString m p (word (slash ∷ []) xs)
        → 0 < length w
        → one_of (m (p + length w - 1)) (slash ∷ []) ≡ false
    clean m p w xs e s some_bytes =
        let some_word : 0 < length (word (slash ∷ []) xs) = rw e some_bytes in
        rw e at (last-one_of (slash ∷ []) m p xs s some_word)

-- path_parse makes the parts of the path of the non-empty words between its slashes, in order,
-- whatever slashes it begins or ends with or repeats. The copy of the path stands apart from the
-- path and from the string "/". More rounds than the path has bytes are enough.
pub path_parse-components :
    (k fresh backup : ℕ) (m : Bytes) (path delim : ℕ) (xs : List ℕ)
    → fresh ≢ 0
    → CString m path xs
    → CString m delim (slash ∷ [])
    → (path + length xs < fresh) ⊎ (fresh + length xs < path)
    → (delim + 1 < fresh) ⊎ (fresh + length xs < delim)
    → 1 < k
    → length xs < k
    → path_parse k fresh backup m path delim
      ≡ some (record { parts = components (slash ∷ []) xs; dir = false })
unfolding path_parse
path_parse-components k fresh backup m path delim xs ne t d apart apart' two lt =
    given (strcpy-Copied k m fresh path xs ne t lt (ground arith)) λ (m', run, (copy, same)).
      rw run (
        bind-bind {C = FsPath} (strtok k backup m' fresh delim)
          (λ (part, backup', m''). parse_loop k k backup' m'' part delim)
          (λ parts. some (record { parts = parts; dir = false }))
        ∙ rw
            (rounds-components k k backup m' fresh delim fresh xs (ground arith) ne
              (CString-same delim (slash ∷ []) d (λ q lo hi. same q (ground arith))) copy
              (ground arith) two lt lt)
            refl)
