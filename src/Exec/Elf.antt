-- ===== src/Exec/Elf.antt =====
-- kernel/exec/elf.c: the check of the header and the sections and symbols of a relocatable file, on
-- the byte memory that holds it. `none` is an assert that
-- fails, a division by 0 or a NULL that is followed; `k` bounds the rounds of strcmp.
pub mod Loading
pub mod Relocate
mod Tests
use wyrm_os.Base.{
  ℕ, zero, suc, ◌+◌, ◌-◌, ◌*◌, ◌/◌, ◌%◌, ◌^◌, bit_and, Bool, true, false, not, ◌&&◌, ◌||◌, Option,
  none, some, List, ltb, ◌==◌, if◌then◌else◌, ℤ,
}
use wyrm_os.Base.Fail.{◌>>=◌}
use wyrm_os.Base.Word.{u64}
use wyrm_os.Libc.Bytes.{Bytes}
use wyrm_os.Libc.Words.{load_le, store_le}
use wyrm_os.Libc.Memory.{memset}
use wyrm_os.Libc.Str.{strcmp}
use wyrm_os.Fs.Path.{read}
use wyrm_os.Symbols.{Symbol, k_lookup_symbol}
use wyrm_os.Exec.Initrd.{is_zero}

abbrev pub u8_at : Bytes → ℕ → ℕ
u8_at m p = load_le m p 1

abbrev pub u16_at : Bytes → ℕ → ℕ
u16_at m p = load_le m p 2

abbrev pub u32_at : Bytes → ℕ → ℕ
u32_at m p = load_le m p 4

abbrev pub u64_at : Bytes → ℕ → ℕ
u64_at m p = load_le m p 8

-- ELF_MAGIC, ELFOSABI_NONE, ELFDATA2LSB, EV_CURRENT, ELF_CLASSNONE, ELF_CLASS64, ET_REL
abbrev pub elf_magic : ℕ
elf_magic = 0x464c457f

abbrev pub elf_class_64 : ℕ
elf_class_64 = 2

abbrev pub et_rel : ℕ
et_rel = 1

-- `elf_ident`: magic, class, data, version, osabi
pub k_elf_check : Bytes → (elf : ℕ) → ℕ
k_elf_check m elf =
    if not (u32_at m elf == elf_magic)
      || not (u8_at m (elf + 7) == 0)
      || not (u8_at m (elf + 5) == 1)
      || not (u8_at m (elf + 6) == 1)
      || (u8_at m (elf + 4) == 0)
    then 0
    else u8_at m (elf + 4)

-- The fields of `elf64` that are read
abbrev pub e_type : Bytes → ℕ → ℕ
e_type m elf = u16_at m (elf + 16)

abbrev pub e_shoff : Bytes → ℕ → ℕ
e_shoff m elf = u64_at m (elf + 40)

abbrev pub e_shentsize : Bytes → ℕ → ℕ
e_shentsize m elf = u16_at m (elf + 58)

abbrev pub e_shnum : Bytes → ℕ → ℕ
e_shnum m elf = u16_at m (elf + 60)

-- The fields of `shdr64`
abbrev pub sh_type : Bytes → ℕ → ℕ
sh_type m s = u32_at m (s + 4)

abbrev pub sh_flags : Bytes → ℕ → ℕ
sh_flags m s = u64_at m (s + 8)

abbrev pub sh_offset : Bytes → ℕ → ℕ
sh_offset m s = u64_at m (s + 24)

abbrev pub sh_size : Bytes → ℕ → ℕ
sh_size m s = u64_at m (s + 32)

abbrev pub sh_link : Bytes → ℕ → ℕ
sh_link m s = u32_at m (s + 40)

abbrev pub sh_info : Bytes → ℕ → ℕ
sh_info m s = u32_at m (s + 44)

abbrev pub sh_entsize : Bytes → ℕ → ℕ
sh_entsize m s = u64_at m (s + 56)

-- The fields of `sym64`
abbrev pub st_name : Bytes → ℕ → ℕ
st_name m s = u32_at m s

abbrev pub st_info : Bytes → ℕ → ℕ
st_info m s = u8_at m (s + 4)

abbrev pub st_shndx : Bytes → ℕ → ℕ
st_shndx m s = u16_at m (s + 6)

abbrev pub st_value : Bytes → ℕ → ℕ
st_value m s = u64_at m (s + 8)

-- `rela64`
pub record Rela : Type 0 where
  pub r_offset : ℕ
  pub r_info : ℕ
  pub r_addend : ℕ

-- `__k_elf_section`
unfoldable pub elf_section : Bytes → (elf index : ℕ) → Option ℕ
elf_section m elf index =
    if ltb index (e_shnum m elf)
    then some (u64 (elf + e_shoff m elf + index * e_shentsize m elf))
    else none

unfoldable pub section_data : Bytes → (elf section offset : ℕ) → ℕ
section_data m elf section offset = u64 (elf + sh_offset m section + offset)

unfoldable pub section_index : Bytes → (elf section index : ℕ) → ℕ
unfolding section_data
section_index m elf section index = section_data m elf section (u64 (index * sh_entsize m section))

-- `sh_size / sh_entsize`
unfoldable pub section_entries : Bytes → (section : ℕ) → Option ℕ
section_entries m s = if sh_entsize m s == 0 then none else some (sh_size m s / sh_entsize m s)

-- SHT_SYMTAB, SHT_RELA, SHT_NOBITS, SHT_REL, SHF_ALLOC
abbrev pub sht_symtab : ℕ
sht_symtab = 2

abbrev pub sht_rela : ℕ
sht_rela = 4

abbrev pub sht_nobits : ℕ
sht_nobits = 8

abbrev pub sht_rel : ℕ
sht_rel = 9

abbrev pub shf_alloc : ℕ
shf_alloc = 2

-- The loop of __k_elf_find_section_by_type from section `i` on; 0 is NULL.
unfoldable pub find_by_type : (left i : ℕ) → Bytes → (elf type : ℕ) → Option ℕ
unfolding elf_section
find_by_type zero i m elf type = some 0
find_by_type (suc left) i m elf type =
    let rest = find_by_type left (i + 1) m elf type in
    (do s ← elf_section m elf i; if sh_type m s == type then some s else rest)

-- `__k_elf_symtab`
unfoldable pub symtab_of : Bytes → (elf : ℕ) → Option ℕ
unfolding find_by_type
symtab_of m elf = find_by_type (e_shnum m elf) 0 m elf sht_symtab

-- The loop of __k_elf_find_symbol from entry `i` on
unfoldable pub find_symbol_loop : (left i k : ℕ) → Bytes → (elf symtab strtab symbol : ℕ) → Option ℕ
unfolding section_index section_data
find_symbol_loop zero i k m elf symtab strtab symbol = some 0
find_symbol_loop (suc left) i k m elf symtab strtab symbol =
    let rest = find_symbol_loop left (i + 1) k m elf symtab strtab symbol in
    let s = section_index m elf symtab i in
    (do
      r ← strcmp k m (section_data m elf strtab (st_name m s)) symbol
      if is_zero r then some s else rest)

unfoldable pub find_symbol : (k : ℕ) → Bytes → (elf symbol : ℕ) → Option ℕ
unfolding symtab_of find_symbol_loop section_entries elf_section
find_symbol k m elf symbol = do
  symtab ← symtab_of m elf
  strtab ← if symtab == 0 then none else elf_section m elf (sh_link m symtab)
  entries ← section_entries m symtab
  find_symbol_loop entries 0 k m elf symtab strtab symbol
