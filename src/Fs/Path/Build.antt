-- ===== src/Fs/Path/Build.antt =====
-- path_build, path_join, path_filename and path_folder.
use wyrm_os.Base.{
  append_assoc, append_nil, ℕ, ◌+◌, ◌≤◌, ◌≡◌, ◌≢◌, ◌∙◌, ◌⊎◌, inl, inr, refl, ap, sym, Bool, true,
  false, none, some, List, [], ◌∷◌, ◌++◌, length, length-append, ◌==◌, arith,
}
use wyrm_os.Base.Fail.{◌>>=◌}
use wyrm_os.Fs.Path.{
  FsPath, slash, required_size, build_loop, cut_last, path_build, pop_last, path_filename,
  path_folder, last_is_slash, path_join,
}
use wyrm_os.Fs.Path.Split.{cons_word, words, components}

abbrev slashes : List ℕ
slashes = slash ∷ []

-- A part that path_parse can give: not empty, and without a '/'.
abbrev pub Part : List ℕ → Type 0
Part [] = ⊥
Part (c ∷ []) = c ≢ slash
Part (c ∷ d ∷ w) = (c ≢ slash) × Part (d ∷ w)

abbrev pub Parts : List (List ℕ) → Type 0
Parts [] = Unit {0}
Parts (w ∷ ws) = Part w × Parts ws

-- Each part with a '/' behind it.
abbrev joined : List (List ℕ) → List ℕ
joined [] = []
joined (w ∷ ws) = w ++ (slash ∷ joined ws)

build_loop-joined : (built : List ℕ) (ws : List (List ℕ)) → build_loop built ws ≡ built ++ joined ws
unfolding build_loop
build_loop-joined built [] = sym (append_nil built)
build_loop-joined built (w ∷ ws) =
    build_loop-joined ((built ++ w) ++ slashes) ws
    ∙ (append_assoc (built ++ w) slashes (joined ws) ∙ append_assoc built w (slash ∷ joined ws))

not_slash : (c : ℕ) → c ≢ slash → (c == slash) ≡ false
not_slash c ne = ground arith

words-Part :
    (w xs : List ℕ) → Part w → words slashes (w ++ (slash ∷ xs)) ≡ (w, components slashes xs)
words-Part [] xs ok = absurd ok
words-Part (c ∷ []) xs ok = rw (not_slash c ok) refl
words-Part (c ∷ d ∷ w) xs (ne, ok) = rw (not_slash c ne, words-Part (d ∷ w) xs ok) refl

cons_word-Part : (w : List ℕ) (ws : List (List ℕ)) → Part w → cons_word w ws ≡ w ∷ ws
cons_word-Part [] ws ok = absurd ok
cons_word-Part (c ∷ []) ws ok = refl
cons_word-Part (c ∷ d ∷ w) ws ok = refl

joined-components : (ws : List (List ℕ)) → Parts ws → components slashes (joined ws) ≡ ws
joined-components [] ok = refl
joined-components (w ∷ ws) (ok, oks) =
    ap (λ (p : List ℕ × List (List ℕ)). cons_word p.0 p.1) (words-Part w (joined ws) ok)
    ∙ (cons_word-Part w (components slashes (joined ws)) ok
        ∙ ap (λ (t : List (List ℕ)). w ∷ t) (joined-components ws oks))

-- A delimiter at the end makes no difference.
words-end : (xs : List ℕ) → words slashes (xs ++ slashes) ≡ words slashes xs
words-end [] = refl
words-end (x ∷ xs) = rw (words-end xs) refl

cut_last-append : (xs : List ℕ) (c : ℕ) → cut_last (xs ++ (c ∷ [])) ≡ some xs
unfolding cut_last
cut_last-append [] c = refl
cut_last-append (x ∷ []) c = refl
cut_last-append (x ∷ y ∷ xs) c = rw (cut_last-append (y ∷ xs) c) refl

-- What path_build cuts the last '/' off.
joined-end : (w : List ℕ) (ws : List (List ℕ)) → (ys : List ℕ) × (joined (w ∷ ws) ≡ ys ++ slashes)
joined-end w [] = (w, refl)
joined-end w (v ∷ ws) =
    let (ys, e) = joined-end v ws in
    (
      w ++ (slash ∷ ys),
      ap (λ (t : List ℕ). w ++ (slash ∷ t)) e ∙ sym (append_assoc w (slash ∷ ys) slashes),
    )

-- The string that path_build makes, on each branch.
path_build-cases :
    (ws : List (List ℕ)) (d : Bool)
    → ((d ≡ true) × (path_build (record { parts = ws; dir = d }) ≡ some (joined ws)))
      ⊎ ((d ≡ false) × (ws ≡ []) × (path_build (record { parts = ws; dir = d }) ≡ none))
      ⊎ ((ys : List ℕ) × (joined ws ≡ ys ++ slashes)
          × (path_build (record { parts = ws; dir = d }) ≡ some ys))
unfolding path_build build_loop cut_last
path_build-cases ws true = inl (refl, ap some (build_loop-joined [] ws))
path_build-cases [] false = inr (inl (refl, refl, refl))
path_build-cases (w ∷ ws) false =
    let (ys, e) = joined-end w ws in
    inr (inr (ys, e, ap cut_last (build_loop-joined [] (w ∷ ws) ∙ e) ∙ cut_last-append ys slash))

-- Where no part of the path is empty or holds a '/', and path_build gives a string, the components of
-- the string are the parts of the path, with the flag P_DIR or without it.
pub path_build-components :
    (p : FsPath) (xs : List ℕ)
    → Parts p.parts
    → path_build p ≡ some xs
    → components slashes xs ≡ p.parts
path_build-components p xs ok e = elim (path_build-cases p.parts p.dir) [
  | inl (_, run) ↦
      ap (components slashes) (some_injective (sym e ∙ run)) ∙ joined-components p.parts ok
  | inr (inl (_, _, run)) ↦ absurd (some-none (sym e ∙ run))
  | inr (inr (ys, shape, run)) ↦
      ap (components slashes) (some_injective (sym e ∙ run))
      ∙ (sym (ap (λ (q : List ℕ × List (List ℕ)). cons_word q.0 q.1) (words-end ys))
          ∙ (ap (components slashes) (sym shape) ∙ joined-components p.parts ok))
]
  where
    some_injective : {a b : List ℕ} → some a ≡ some b → a ≡ b
    some_injective e = cc

    some-none : {a : List ℕ} → some a ≡ none → ⊥
    some-none e = cc

required_size-joined : (ws : List (List ℕ)) → required_size ws ≡ length (joined ws) + 1
unfolding required_size
required_size-joined [] = refl
required_size-joined (w ∷ ws) =
    omega (arith, required_size-joined ws, length-append w (slash ∷ joined ws))

-- path_build fails, and writes before its buffer, exactly where the path has no parts and no flag
-- P_DIR. Elsewhere the string and its NUL fit in the buffer that path_build asks for.
pub path_build-required_size :
    (p : FsPath)
    → ((path_build p ≡ none) × (p.parts ≡ []) × (p.dir ≡ false))
      ⊎ ((xs : List ℕ) × (path_build p ≡ some xs) × (length xs + 1 ≤ required_size p.parts))
path_build-required_size p = elim (path_build-cases p.parts p.dir) [
  | inl (_, run) ↦ inr (joined p.parts, run, omega (arith, required_size-joined p.parts))
  | inr (inl (d, nil, run)) ↦ inl (run, nil, d)
  | inr (inr (ys, shape, run)) ↦ inr (
    ys,
    run,
    omega
        (arith, required_size-joined p.parts, length-append ys slashes, ap (length {A = ℕ}) shape),
  )
]

pop_last-append : (ws : List (List ℕ)) (w : List ℕ) → pop_last (ws ++ (w ∷ [])) ≡ some (ws, w)
unfolding pop_last
pop_last-append [] w = refl
pop_last-append (x ∷ []) w = refl
pop_last-append (x ∷ y ∷ ws) w = rw (pop_last-append (y ∷ ws) w) refl

-- After path_join of a part that does not end with a '/', path_filename is the part, and path_folder
-- is what path_build makes of the parts before, without the flag P_DIR.
pub path_join-path_filename :
    (p : FsPath) (c : ℕ) (cs : List ℕ)
    → last_is_slash (c ∷ cs) ≡ false
    → (q : FsPath) × (path_join p (c ∷ cs) ≡ some q)
      × (path_filename q ≡ some (c ∷ cs))
      × (path_folder q
          ≡ (do path ← path_build (record { parts = p.parts; dir = false }); some (path, q)))
unfolding path_join path_filename path_folder
path_join-path_filename p c cs e =
    let q : FsPath = record { parts = p.parts ++ ((c ∷ cs) ∷ []); dir = false } in
    let last = pop_last-append p.parts (c ∷ cs) in (q, rw e refl, rw last refl, rw last refl)

last_is_slash-append : (xs : List ℕ) → last_is_slash (xs ++ slashes) ≡ true
unfolding last_is_slash
last_is_slash-append [] = refl
last_is_slash-append (x ∷ []) = refl
last_is_slash-append (x ∷ y ∷ xs) = last_is_slash-append (y ∷ xs)

path_join-slash :
    (p : FsPath) (part : List ℕ)
    → path_join p (part ++ slashes) ≡ some (record { parts = p.parts ++ (part ∷ []); dir = true })
unfolding path_join
path_join-slash p [] = refl
path_join-slash p (c ∷ cs) = rw (last_is_slash-append (c ∷ cs), cut_last-append (c ∷ cs) slash) refl

-- After path_join of a part with a '/' behind it, the part without the '/' is the file name, and the
-- path has the flag P_DIR.
pub path_join-dir :
    (p : FsPath) (part : List ℕ)
    → (q : FsPath) × (path_join p (part ++ slashes) ≡ some q)
      × (path_filename q ≡ some part)
      × (q.dir ≡ true)
unfolding path_filename
path_join-dir p part =
    let last = pop_last-append p.parts part in
    (
      record { parts = p.parts ++ (part ∷ []); dir = true },
      path_join-slash p part,
      rw last refl,
      refl,
    )
