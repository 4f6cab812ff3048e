-- ===== src/Exec/Elf/Loading.antt =====
-- kernel/exec/elf.c: the values of symbols, the relocation of sections and k_elf_load_module. `none` is
-- as in the parent, and also that the rounds run out.
use wyrm_os.Base.{
  ℕ, zero, suc, ◌+◌, ◌-◌, ◌/◌, ◌%◌, ◌^◌, bit_and, Bool, true, false, not, ◌&&◌, ◌||◌, Option, none,
  some, List, ltb, ◌==◌, if◌then◌else◌,
}
use wyrm_os.Base.Fail.{◌>>=◌}
use wyrm_os.Base.Word.{u64}
use wyrm_os.Libc.Bytes.{Bytes}
use wyrm_os.Libc.Words.{store_le}
use wyrm_os.Libc.Memory.{memset}
use wyrm_os.Fs.Path.{read}
use wyrm_os.Symbols.{Symbol, k_lookup_symbol}
use wyrm_os.Exec.Elf.{
  u64_at, elf_class_64, et_rel, k_elf_check, e_type, e_shnum, sh_type, sh_flags, sh_size, sh_link,
  sh_info, st_name, st_info, st_shndx, st_value, Rela, elf_section, section_data, section_index,
  section_entries, sht_rela, sht_nobits, sht_rel, shf_alloc, find_symbol,
}

-- SHN_UNDEF, SHN_ABS, STB_WEAK, and what stands for an unresolved symbol
abbrev pub shn_undef : ℕ
shn_undef = 0

abbrev pub shn_abs : ℕ
shn_abs = 0xfff1

abbrev pub stb_weak : ℕ
stb_weak = 2

abbrev pub unresolved : ℕ
unresolved = 0xFFFFffffFFFFffff

-- ELF64_ST_BIND
abbrev pub st_bind : ℕ → ℕ
st_bind info = info % 256 / 2 ^ 4

-- The value of an undefined symbol by its name; `kernel` is the table of kernel/symbols.c.
unfoldable pub external_value : List Symbol → (info : ℕ) → (name : List ℕ) → ℕ
external_value kernel info name = elim (k_lookup_symbol kernel name) [
  | none ↦ if bit_and (st_bind info) stb_weak == 0 then unresolved else 0
  | some s ↦ s.address
]

-- The value of the symbol at `sym`
unfoldable pub sym_value : (k : ℕ) → List Symbol → Bytes → (elf symtab sym : ℕ) → Option ℕ
unfolding elf_section section_data external_value
sym_value k kernel m elf symtab sym =
    if st_shndx m sym == shn_undef
    then (do
      strtab ← elf_section m elf (sh_link m symtab)
      name ← read k m (section_data m elf strtab (st_name m sym))
      some (external_value kernel (st_info m sym) name))
    else if st_shndx m sym == shn_abs
    then some (st_value m sym)
    else (do
      sect ← elf_section m elf (st_shndx m sym)
      some (section_data m elf sect (st_value m sym)))

-- `__k_elf_symval`
unfoldable pub symval : (k : ℕ) → List Symbol → Bytes → (elf table index : ℕ) → Option ℕ
unfolding elf_section section_index sym_value
symval k kernel m elf table index = do
  symtab ← elf_section m elf table
  sym_value k kernel m elf symtab (section_index m elf symtab index)

-- ELF64_R_SYM and ELF64_R_TYPE
abbrev pub r_sym : ℕ → ℕ
r_sym info = info / 2 ^ 32

abbrev pub r_type : ℕ → ℕ
r_type info = info % 2 ^ 16

-- The value that a relocation uses
unfoldable pub relocated_value : (k : ℕ) → List Symbol → Bytes → (elf sect : ℕ) → Rela → Option ℕ
unfolding symval
relocated_value k kernel m elf sect rela =
    if r_sym rela.r_info == shn_undef
    then some 0
    else symval k kernel m elf (sh_link m sect) (r_sym rela.r_info)

-- The `switch` over the type: the memory, and whether it is one of the four types
unfoldable pub patch : Bytes → (addr value : ℕ) → Rela → Bool × Bytes
patch m addr value rela =
    let type = r_type rela.r_info in
    if type == 0
    then (true, m)
    else if type == 1
    then (true, store_le m addr 8 (u64 (value + rela.r_addend)))
    else if type == 2
    then (true, store_le m addr 4 (u64 (u64 (value + rela.r_addend) + (2 ^ 64 - addr)) % 2 ^ 32))
    else if type == 10
    then (true, store_le m addr 4 (u64 (value + rela.r_addend) % 2 ^ 32))
    else (false, m)

-- `__k_elf_relocate`; the result is false where it is 0.
unfoldable pub relocate :
    (k : ℕ) → List Symbol → Bytes → (elf sect : ℕ) → Rela → Option (Bool × Bytes)
unfolding relocated_value patch elf_section section_data
relocate k kernel m elf sect rela = do
  target ← elf_section m elf (sh_info m sect)
  value ← relocated_value k kernel m elf sect rela
  (if not (r_sym rela.r_info == shn_undef) && (value == unresolved)
      then some (false, m)
      else some (patch m (section_data m elf target rela.r_offset) value rela))

-- Entry `j` of a relocation section; SHT_REL entries have no addend.
unfoldable pub rela_at : Bytes → (elf section j : ℕ) → Rela
unfolding section_index
rela_at m elf section j =
    let p = section_index m elf section j in
    record {
      r_offset = u64_at m p;
      r_info = u64_at m (p + 8);
      r_addend = if sh_type m section == sht_rela then u64_at m (p + 16) else 0;
    }

-- The loop over the entries of a relocation section from entry `j` on, which reads their number again
-- in each round; `none` also when the rounds run out
pub relocate_entries :
    (rounds j k : ℕ) → List Symbol → Bytes → (elf section : ℕ) → Option (Bool × Bytes)
unfolding relocate rela_at section_entries
relocate_entries zero j k kernel m elf section = none
relocate_entries (suc rounds) j k kernel m elf section = do
  n ← section_entries m section
  (if ltb j n
      then (do
        (good, m') ← relocate k kernel m elf section (rela_at m elf section j)
        (if good
            then relocate_entries rounds (j + 1) k kernel m' elf section
            else some (false, m')))
      else some (true, m))

-- What k_elf_load_module does to a section; `mem` is what malloc gives for it.
pub load_section :
    (rounds k : ℕ) → List Symbol → Bytes → (elf section mem : ℕ) → Option (Bool × Bytes)
unfolding relocate_entries
load_section rounds k kernel m elf section mem =
    if sh_type m section == sht_nobits
    then (if sh_size m section == 0
        then some (true, m)
        else if bit_and (sh_flags m section) shf_alloc == 0
        then some (true, m)
        else (let m' = (memset m mem 0 (sh_size m section)).1 in
            some (true, store_le m' (section + 24) 8 (u64 (mem + (2 ^ 64 - elf))))))
    else if (sh_type m section == sht_rel) || (sh_type m section == sht_rela)
    then relocate_entries rounds 0 k kernel m elf section
    else some (true, m)

-- The loop over the sections from section `i` on, which reads their number again
-- in each round; `total` bounds the loops within
pub load_sections :
    (rounds total i k : ℕ)
    → List Symbol
    → (malloc : ℕ → ℕ) → Bytes
    → (elf : ℕ) → Option (Bool × Bytes)
unfolding load_section elf_section
load_sections zero total i k kernel malloc m elf = none
load_sections (suc rounds) total i k kernel malloc m elf =
    if ltb i (e_shnum m elf)
    then (do
      section ← elf_section m elf i
      (good, m') ← load_section total k kernel m elf section (malloc i)
      (if good
          then load_sections rounds total (i + 1) k kernel malloc m' elf
          else some (false, m')))
    else some (true, m)

-- The address of the module's `__module_info`; 0 is NULL. `malloc i` is what malloc gives for section
-- `i`, and `symbol` the address of the string "__module_info".
pub k_elf_load_module :
    (rounds k : ℕ) → List Symbol → (malloc : ℕ → ℕ) → Bytes → (elf symbol : ℕ) → Option (ℕ × Bytes)
unfolding k_elf_check load_sections find_symbol elf_section section_data
k_elf_load_module rounds k kernel malloc m elf symbol =
    if not (k_elf_check m elf == elf_class_64) || not (e_type m elf == et_rel)
    then some (0, m)
    else (do
      (good, m') ← load_sections rounds rounds 0 k kernel malloc m elf
      modinfo ← if good then find_symbol k m' elf symbol else some 0
      shdr ← if modinfo == 0 then some 0 else elf_section m' elf (st_shndx m' modinfo)
      some (if modinfo == 0 then 0 else section_data m' elf shdr (st_value m' modinfo), m'))
