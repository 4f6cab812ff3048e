-- ===== src/Exec/Initrd/Archive.antt =====
-- __parse_tar_module and __initrd_open on a well-formed archive.
use wyrm_os.Base.{
  ℕ, zero, suc, ◌+◌, ◌*◌, ◌/◌, ◌^◌, ◌<◌, ◌≡◌, ◌≢◌, refl, false, some, List, [], ◌∷◌, length, ◌==◌,
  arith,
}
use wyrm_os.Libc.Bytes.{Bytes}
use wyrm_os.Exec.Initrd.{size_field, block, next_header, parse_tar_module}
use wyrm_os.Exec.Initrd.Size.{Octal, get_size-Octal}

-- The blocks of a file
abbrev pub blocks : ℕ → ℕ
blocks n = (n + 511) / block

abbrev pub behind : (h n : ℕ) → ℕ
behind h n = h + block + blocks n * block

-- Files of the given sizes, each behind a header with its size in base 8 and in whole blocks, from
-- `h` on, and behind the last one a header with an empty name; all below 2 ^ 64.
abbrev pub Archive : Bytes → (h : ℕ) → List ℕ → Type 0
Archive m h [] = m h ≡ 0
Archive m h (n ∷ ns) =
    (m h ≢ 0) × Octal m (size_field h) 11 n × (behind h n < 2 ^ 64) × Archive m (behind h n) ns

-- where the headers are
abbrev pub headers : (h : ℕ) → List ℕ → List ℕ
headers h [] = []
headers h (n ∷ ns) = h ∷ headers (behind h n) ns

next_header-behind :
    (m : Bytes) (h n : ℕ)
    → Octal m (size_field h) 11 n
    → behind h n < 2 ^ 64
    → next_header m h ≡ behind h n
unfolding next_header
next_header-behind m h n o fits = rw (get_size-Octal m (size_field h) n o) (ground arith)

-- __parse_tar_module of a well-formed archive ends, and gives the headers of all files in order.
pub parse_tar_module-headers :
    (k : ℕ) (m : Bytes) (h : ℕ) (ns : List ℕ)
    → length ns < k
    → Archive m h ns
    → parse_tar_module k m h ≡ some (headers h ns)
unfolding parse_tar_module
parse_tar_module-headers zero m h ns enough a = absurd (omega arith)
parse_tar_module-headers (suc k) m h [] enough e = rw e refl
parse_tar_module-headers (suc k) m h (n ∷ ns) enough (ne, o, fits, rest) =
    let named : (m h == 0) ≡ false = ground arith in
    rw
      (
        named,
        next_header-behind m h n o fits,
        parse_tar_module-headers k m (behind h n) ns (omega arith) rest,
      )
      refl
