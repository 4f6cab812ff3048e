-- ===== src/Exec/Initrd/Tests.antt =====
-- An archive of a directory and a file of 600 bytes in it, at 0x10000.
use wyrm_os.Base.{
  ℕ, ◌+◌, ◌-◌, ◌/◌, ◌%◌, ◌^◌, ◌<◌, ◌≡◌, inl, refl, true, false, not, none, some, List, [], ◌∷◌,
  take, ◌==◌, ltb, leb, ◌&&◌, if◌then◌else◌, bit_and, arith,
}
use Prim.Native.Nat.{min}
use wyrm_os.Libc.Bytes.{Bytes}
use wyrm_os.Libc.Memory.{memcpy, copied}
use wyrm_os.Fs.Path.{FsPath, path_build, path_filename}
use wyrm_os.Fs.Vfs.{name_length}
use wyrm_os.Exec.Initrd.{
  FsNode, parse_tar_module, ram_read, initrd_open, put_string, get_size, size_field, block, o_dir,
}
use wyrm_os.Exec.Initrd.Archive.{headers, parse_tar_module-headers}
use wyrm_os.Exec.Initrd.Read.{ram_read-copied, ram_read_overrun}
use wyrm_os.Exec.Initrd.Open.{lookup_file, all_headers, initrd_open-lookup_file}

abbrev at : ℕ
at = 0x10000

-- the size field: "00000000000" and "00000001130"
abbrev octal_byte : (n j : ℕ) → ℕ
octal_byte n j = 48 + n / 8 ^ (10 - j) % 8

-- "a/", and "a/b" at the next header
abbrev tar : Bytes
tar q =
    if q == 0x10000
    then 97
    else if q == 0x10001
    then 47
    else if q == 0x10200
    then 97
    else if q == 0x10201
    then 47
    else if q == 0x10202
    then 98
    else if leb 0x1007c q && ltb q 0x10087
    then octal_byte 0 (q - 0x1007c)
    else if leb 0x1027c q && ltb q 0x10287
    then octal_byte 600 (q - 0x1027c)
    else 0

parse_tar_module-headers_example : parse_tar_module 3 tar at ≡ some (headers at (0 ∷ 600 ∷ []))
parse_tar_module-headers_example = parse_tar_module-headers 3 tar at (0 ∷ 600 ∷ []) (omega arith) (
  omega arith,
  (
    omega arith,
    (
      omega arith,
      (
        omega arith,
        (
          omega arith,
          (
            omega arith,
            (
              omega arith,
              (omega arith, (omega arith, (omega arith, (omega arith, (omega arith, refl))))),
            ),
          ),
        ),
      ),
    ),
  ),
  omega arith,
  (
    omega arith,
    (
      omega arith,
      (
        omega arith,
        (
          omega arith,
          (
            omega arith,
            (
              omega arith,
              (
                omega arith,
                (omega arith, (omega arith, (omega arith, (omega arith, (omega arith, refl))))),
              ),
            ),
          ),
        ),
      ),
    ),
    omega arith,
    refl,
  ),
)

abbrev file : FsNode
file = record { name = 98 ∷ []; size = 600; meta = at + 1024; reads_dir = false }

ram_read-copied_example :
    ((ram_read file tar 500 200 0x9000).0 ≡ min 200 (file.size - 500))
    × ((q : ℕ)
        → (ram_read file tar 500 200 0x9000).1 q
          ≡ copied tar 0x9000 (file.meta + 500) (min 200 (file.size - 500)) q)
ram_read-copied_example = ram_read-copied file tar 500 200 0x9000 (omega arith) (inl (omega arith))

ram_read_overrun_example :
    (ram_read file tar 500 (2 ^ 64 - 400) 0x9000
      ≡ (2 ^ 64 - 400, (memcpy tar 0x9000 (file.meta + 500) (2 ^ 64 - 400)).1))
    × (file.size - 500 < 2 ^ 64 - 400)
ram_read_overrun_example =
    ram_read_overrun file tar 500 (2 ^ 64 - 400) 0x9000 (omega arith) (omega arith) (omega arith)
      (omega arith)

abbrev a_b : FsPath
a_b = record { parts = (97 ∷ []) ∷ (98 ∷ []) ∷ []; dir = true }

abbrev files : List (ℕ × List ℕ)
files = (at, 97 ∷ 47 ∷ []) ∷ (at + 512, 97 ∷ 47 ∷ 98 ∷ []) ∷ []

initrd_open-lookup_file_example :
    initrd_open 9 tar (all_headers files) 0x9000 a_b 0
    ≡ some (elim (lookup_file files (97 ∷ 47 ∷ 98 ∷ [])) [
      | none ↦ none
      | some h ↦ some (record {
        name = take name_length (98 ∷ []);
        size = get_size (put_string tar 0x9000 (97 ∷ 47 ∷ 98 ∷ [])) (size_field h);
        meta = if not (bit_and 0 o_dir == 0) then h else h + block;
        reads_dir = not (bit_and 0 o_dir == 0);
      })
    ])
unfolding path_build path_filename
initrd_open-lookup_file_example =
    initrd_open-lookup_file 9 tar 0x9000 0 a_b (97 ∷ 47 ∷ 98 ∷ []) (98 ∷ []) files refl refl
      (omega arith) (omega arith)

lookup_file_lem : lookup_file files (97 ∷ 47 ∷ 98 ∷ []) ≡ some (at + 512)
lookup_file_lem = refl
