-- ===== src/Exec/Initrd.antt =====
-- kernel/exec/initrd.c: a tar archive in memory as a file system. Addresses that malloc gives are
-- arguments, and `k` bounds the rounds of each loop; `none` means that it runs out, or that NULL is
-- followed.
pub mod Size
pub mod Archive
pub mod Read
pub mod Open
mod Tests
use wyrm_os.Base.{
  ℕ, zero, suc, ◌+◌, ◌-◌, ◌*◌, ◌/◌, ◌%◌, ◌^◌, Bool, true, false, not, Option, none, some, List, [],
  ◌∷◌, take, bit_and, ltb, ◌==◌, if◌then◌else◌, ℤ, pos, negsuc,
}
use wyrm_os.Base.Fail.{◌>>=◌}
use wyrm_os.Base.Word.{u64}
use wyrm_os.Libc.Bytes.{Bytes, store}
use wyrm_os.Libc.Memory.{memcpy}
use wyrm_os.Libc.Str.{strlen, strcmp, strncmp, strncpy}
use wyrm_os.Fs.Path.{FsPath, path_parse, path_build, path_filename}
use wyrm_os.Fs.Vfs.{name_length}

-- `struct tar_header` at an address: `filename`, then `size`; files lie in blocks of 512 bytes
abbrev pub size_field : ℕ → ℕ
size_field h = h + 124

abbrev pub block : ℕ
block = 512

-- `_size[j] - '0'`, of a char with sign, as a size_t
unfoldable pub digit_value : ℕ → ℕ
digit_value c = if ltb c 128 then u64 (c + (2 ^ 64 - 48)) else u64 (c + (2 ^ 64 - 256 - 48))

-- The loop of __get_size, from the digit before place `j` down to the first one
unfoldable pub size_loop : Bytes → (p j count size : ℕ) → ℕ
unfolding digit_value
size_loop m p zero count size = size
size_loop m p (suc j) count size =
    size_loop m p j (u64 (count * 8)) (u64 (size + u64 (digit_value (m (p + j)) * count)))

unfoldable pub get_size : Bytes → ℕ → ℕ
unfolding size_loop
get_size m p = size_loop m p 11 1 0

-- The header behind a header and its file
unfoldable pub next_header : Bytes → ℕ → ℕ
next_header m h =
    let size = get_size m (size_field h) in
    let address = u64 (h + u64 ((size / block + 1) * block)) in
    if size % block == 0 then address else u64 (address + block)

-- `filename[0] == '\0'` ends the archive.
pub parse_tar_module : ℕ → Bytes → (address : ℕ) → Option (List ℕ)
parse_tar_module zero m h = none
parse_tar_module (suc k) m h =
    let rest = parse_tar_module k m (next_header m h) in
    if m h == 0 then some [] else (do files ← rest; some (h ∷ files))

-- The fields of an `fs_node` that initrd.c sets; `reads_dir` where `ops.readdir` is set, `ops.read`
-- otherwise.
pub record FsNode : Type 0 where
  pub name : List ℕ
  pub size : ℕ
  pub meta : ℕ
  pub reads_dir : Bool

-- The number of bytes read, and the memory
pub ram_read : FsNode → Bytes → (offset size buffer : ℕ) → ℕ × Bytes
ram_read ram m offset size buffer =
    if ltb ram.size offset
    then (0, m)
    else if ltb ram.size (u64 (offset + size))
    then (let size' = ram.size - offset in
        if size' == 0 then (0, m) else (size', (memcpy m buffer (ram.meta + offset) size').1))
    else (size, (memcpy m buffer (ram.meta + offset) size).1)

abbrev pub is_zero : ℤ → Bool
is_zero (pos n) = n == 0
is_zero (negsuc n) = false

-- __filename_comparator says 0: the result of strcmp is less than 256 either way.
pub same_filename : ℕ → Bytes → (file name : ℕ) → Option Bool
same_filename k m file name = do r ← strcmp k m file name; some (is_zero r)

pub starts_with : ℕ → Bytes → (pre post : ℕ) → Option Bool
starts_with k m pre post = do n ← strlen k m pre; some (is_zero (strncmp m pre post n))

-- A string that is written to memory
unfoldable pub put_string : Bytes → ℕ → List ℕ → Bytes
put_string m p [] = store m p 0
put_string m p (x ∷ xs) = store (put_string m (p + 1) xs) p x

-- DIRENT_NAME_LENGTH
abbrev pub dirent_name_length : ℕ
dirent_name_length = 256

-- What malloc gives for path_parse and path_filename, strtok's static pointer and the string "/"
pub record Scratch : Type 0 where
  pub copy : ℕ
  pub backup : ℕ
  pub filename : ℕ
  pub delim : ℕ

-- `strncpy(dir->name, path_filename(path_parse(hdr->filename)), DIRENT_NAME_LENGTH)`
pub put_entry : ℕ → Scratch → Bytes → (hdr dir_name : ℕ) → Option Bytes
put_entry k a m hdr dir_name = do
  p ← path_parse k a.copy a.backup m hdr a.delim
  filename ← path_filename p
  some (strncpy (put_string m a.filename filename) dir_name a.filename dirent_name_length).1

-- The loop of __initrd_readdir, where `c` files below the directory have been passed
pub readdir_loop :
    (r k : ℕ) → Scratch → Bytes → (root hdr c dir_name index : ℕ) → Option (ℕ × Bytes)
unfolding put_entry starts_with
readdir_loop zero k a m root hdr c dir_name index = none
readdir_loop (suc r) k a m root hdr c dir_name index =
    let next = λ (c' : ℕ). readdir_loop r k a m root (next_header m hdr) c' dir_name index in
    let stop : Option (ℕ × Bytes) = some (0, store m dir_name 0) in
    if m hdr == 0
    then stop
    else (starts_with k m root hdr >>= λ below.
        if below
        then (if hdr == root
            then next c
            else if c == index
            then (do m' ← put_entry k a m hdr dir_name; some (1, m'))
            else next (c + 1))
        else stop)

-- 1 and the name of the entry, or 0 and an empty name
pub initrd_readdir :
    (r k : ℕ) → Scratch → Bytes → FsNode → (dir_name index : ℕ) → Option (ℕ × Bytes)
unfolding readdir_loop
initrd_readdir r k a m root dir_name index =
    readdir_loop r k a m root.meta root.meta 0 dir_name index

-- `list_find_cmp` with __filename_comparator on the files
pub find_file : ℕ → Bytes → List ℕ → (name : ℕ) → Option (Option ℕ)
unfolding same_filename
find_file k m [] name = some none
find_file k m (h ∷ hs) name =
    let rest = find_file k m hs name in
    (do same ← same_filename k m h name; if same then some (some h) else rest)

-- O_DIR
abbrev pub o_dir : ℕ
o_dir = 32

-- The node of a file; the tail of the path's parts gives its name.
pub file_node : Bytes → FsPath → (header : ℕ) → Option FsNode
file_node m p header = do
  name ← path_filename p
  some (record {
    name = take name_length name;
    size = get_size m (size_field header);
    meta = if p.dir then header else header + block;
    reads_dir = p.dir;
  })

-- `files` is the root's meta, `fresh` what malloc gives for the path; the inner `none` is NULL.
pub initrd_open :
    ℕ → Bytes → (files : List ℕ) → (fresh : ℕ) → FsPath → (flags : ℕ) → Option (Option FsNode)
unfolding find_file file_node
initrd_open k m files fresh p flags =
    let p' = record p { dir = not (bit_and flags o_dir == 0) } in
    (do
      path ← path_build p'
      file ← find_file k (put_string m fresh path) files fresh
      elim file [
        | none ↦ some none
        | some header ↦ (do r ← file_node (put_string m fresh path) p' header; some (some r))
      ])
