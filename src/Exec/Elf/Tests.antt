-- ===== src/Exec/Elf/Tests.antt =====
-- A file at 0x100000 with two sections, whose headers stand at 64: section 0 is itself the symbol
-- table and the target, and the symbol at its place 24 is absolute.
use wyrm_os.Base.{ℕ, ◌+◌, ◌-◌, ◌^◌, ◌≡◌, ◌⊎◌, refl, true, false, some, [], ◌==◌, if◌then◌else◌}
use wyrm_os.Libc.Bytes.{Bytes}
use wyrm_os.Libc.Words.{load_le, store_le}
use wyrm_os.Exec.Elf.{
  Rela, elf_section, section_data, section_index, sh_info, k_elf_check, elf_class_64,
}
use wyrm_os.Exec.Elf.Loading.{relocate, relocated_value, symval, sym_value, patch, r_type}
use wyrm_os.Exec.Elf.Relocate.{Patched, relocate-Patched}

abbrev elf : ℕ
elf = 0x100000

abbrev image : Bytes
image q =
    if q == elf
    then 0x7f
    else if q == elf + 1
    then 0x45
    else if q == elf + 2
    then 0x4c
    else if q == elf + 3
    then 0x46
    else if q == elf + 4
    then 2
    else if q == elf + 5
    then 1
    else if q == elf + 6
    then 1
    else if q == elf + 40
    then 64
    else if q == elf + 58
    then 64
    else if q == elf + 60
    then 2
    else if q == elf + 64 + 57
    then 1
    else if q == elf + 256 + 6
    then 0xf1
    else if q == elf + 256 + 7
    then 0xff
    else if q == elf + 256 + 9
    then 0x20
    else 0

k_elf_check_lem : k_elf_check image elf ≡ elf_class_64
unfolding k_elf_check load_le
k_elf_check_lem = refl

-- Symbol 1, relative to the place, with an addend of 4
abbrev rela : Rela
rela = record { r_offset = 512; r_info = 2 ^ 32 + 2; r_addend = 4 }

abbrev patched : Bytes
patched = store_le image (elf + 512) 4 (2 ^ 32 - (0x100200 - 0x2004))

relocate-Patched_example :
    ((true ≡ true)
      × ((target : ℕ) × (value : ℕ) × (elf_section image elf (sh_info image (elf + 128))
            ≡ some target)
          × (relocated_value 1 [] image elf (elf + 128) rela ≡ some value)
          × Patched
              (r_type rela.r_info)
              (section_data image elf target rela.r_offset)
              (value + rela.r_addend)
              image
              patched))
    ⊎ ((true ≡ false) × (patched ≡ image))
unfolding relocate elf_section section_data section_index relocated_value symval sym_value patch
    load_le store_le
relocate-Patched_example = relocate-Patched 1 [] image elf (elf + 128) rela true patched refl
