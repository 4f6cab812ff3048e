-- ===== src/Exec/Initrd/Open.antt =====
-- __initrd_open: the file that it finds.
use wyrm_os.Base.{
  ℕ, ◌+◌, ◌<◌, ◌≡◌, ◌≢◌, ◌⊎◌, refl, true, false, not, Option, none, some, List, [], ◌∷◌, length,
  take, ◌==◌, if◌then◌else◌, bit_and, arith, Option-cases, Bool-cases, inl, inr,
}
use wyrm_os.Libc.Bytes.{Bytes, CString, CString-same}
use wyrm_os.Libc.Str.Compare.{compare_strings, strcmp_rounds}
use wyrm_os.Fs.Path.{FsPath, path_build, path_filename}
use wyrm_os.Fs.Vfs.{name_length, same_name}
use wyrm_os.Exec.Initrd.{
  is_zero, same_filename, put_string, find_file, file_node, initrd_open, get_size, size_field,
  block, o_dir,
}

pub put_string_outside :
    (m : Bytes) (p q : ℕ) (xs : List ℕ) → (q < p) ⊎ (p + length xs < q) → put_string m p xs q ≡ m q
unfolding put_string
put_string_outside m p q [] out = ground arith
put_string_outside m p q (x ∷ xs) out =
    let rest : (q < p + 1) ⊎ (p + 1 + length xs < q) = elim out [
      | inl a ↦ inl (omega arith)
      | inr b ↦ inr (omega arith)
    ] in
    let ne : (q == p) ≡ false = ground arith in rw ne (put_string_outside m (p + 1) q xs rest)

-- none of the bytes is 0
abbrev pub NonZero : List ℕ → Type 0
NonZero [] = Unit {0}
NonZero (x ∷ xs) = (x ≢ 0) × NonZero xs

pub put_string-CString :
    (m : Bytes) (p : ℕ) (xs : List ℕ) → NonZero xs → CString (put_string m p xs) p xs
unfolding put_string
put_string-CString m p [] z = ground arith
put_string-CString m p (x ∷ xs) (ne, z) =
    let self : (p == p) ≡ true = ground arith in
    (
      rw self refl,
      ne,
      CString-same (p + 1) xs (put_string-CString m (p + 1) xs z)
          (λ q low high. let t : (q == p) ≡ false = ground arith in rw t refl),
    )

CString-NonZero : (m : Bytes) (p : ℕ) (xs : List ℕ) → CString m p xs → NonZero xs
CString-NonZero m p [] e = tt
CString-NonZero m p (x ∷ xs) (e, ne, t) = (ne, CString-NonZero m (p + 1) xs t)

is_zero-compare_strings :
    (xs ys : List ℕ) → NonZero xs → NonZero ys → is_zero (compare_strings xs ys) ≡ same_name xs ys
unfolding compare_strings
is_zero-compare_strings [] [] a b = refl
is_zero-compare_strings [] (y ∷ ys) a (ne, b) = ground arith
is_zero-compare_strings (x ∷ xs) [] (ne, a) b = ground arith
is_zero-compare_strings (x ∷ xs) (y ∷ ys) (_, a) (_, b) = elim (Bool-cases (x == y)) [
  | inl e ↦ rw e (is_zero-compare_strings xs ys a b)
  | inr e ↦ rw e (ground arith)
]

-- The file names of headers, shorter than `k` bytes and apart from the buffer of the path
abbrev pub Named : (k : ℕ) → Bytes → (fresh : ℕ) → (path : List ℕ) → List (ℕ × List ℕ) → Type 0
Named k m fresh path [] = Unit {0}
Named k m fresh path ((h, xs) ∷ fs) =
    CString m h xs
    × (length xs < k)
    × ((h + length xs < fresh) ⊎ (fresh + length path < h))
    × Named k m fresh path fs

-- the header of the first file with the name
abbrev pub lookup_file : List (ℕ × List ℕ) → List ℕ → Option ℕ
lookup_file [] name = none
lookup_file ((h, xs) ∷ fs) name =
    let rest = lookup_file fs name in if same_name xs name then some h else rest

abbrev pub all_headers : List (ℕ × List ℕ) → List ℕ
all_headers [] = []
all_headers ((h, xs) ∷ fs) = h ∷ all_headers fs

find_file-lookup_file :
    (k : ℕ) (m : Bytes) (fresh : ℕ) (path : List ℕ) (fs : List (ℕ × List ℕ))
    → NonZero path
    → Named k m fresh path fs
    → find_file k (put_string m fresh path) (all_headers fs) fresh ≡ some (lookup_file fs path)
unfolding find_file same_filename
find_file-lookup_file k m fresh path [] z n = refl
find_file-lookup_file k m fresh path ((h, xs) ∷ fs) z (t, short, apart, n) =
    let kept : CString (put_string m fresh path) h xs = CString-same h xs t (λ q low high.
      put_string_outside m fresh q path
        (elim apart [ inl a ↦ inl (omega arith) | inr b ↦ inr (omega arith) ])) in
    rw
      (
        strcmp_rounds k (put_string m fresh path) h fresh xs path short kept
            (put_string-CString m fresh path z),
        is_zero-compare_strings xs path (CString-NonZero m h xs t) z,
        find_file-lookup_file k m fresh path fs z n,
      )
      (ground arith)

-- __initrd_open of a path, with O_DIR or without it, gives NULL where no file has the name that
-- path_build makes; otherwise a node for the first such file, with its size, that reads the bytes
-- behind the header, or for a directory the header itself.
pub initrd_open-lookup_file :
    (k : ℕ) (m : Bytes) (fresh flags : ℕ) (p : FsPath) (path last : List ℕ) (fs : List (ℕ × List ℕ))
    → path_build (record p { dir = not (bit_and flags o_dir == 0) }) ≡ some path
    → path_filename (record p { dir = not (bit_and flags o_dir == 0) }) ≡ some last
    → NonZero path
    → Named k m fresh path fs
    → initrd_open k m (all_headers fs) fresh p flags
      ≡ some (elim (lookup_file fs path) [
        | none ↦ none
        | some h ↦ some (record {
          name = take name_length last;
          size = get_size (put_string m fresh path) (size_field h);
          meta = if not (bit_and flags o_dir == 0) then h else h + block;
          reads_dir = not (bit_and flags o_dir == 0);
        })
      ])
unfolding initrd_open file_node
initrd_open-lookup_file k m fresh flags p path last fs built named z n =
    rw (built, find_file-lookup_file k m fresh path fs z n)
      (elim (Option-cases (lookup_file fs path)) [
        | inl e ↦ rw e refl
        | inr (h, e) ↦ rw (e, named) refl
      ])
