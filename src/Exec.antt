-- ===== src/Exec.antt =====
-- kernel/exec: the initial ramdisk, the ELF loader and modules.
pub mod Initrd
pub mod Elf
pub mod Module
pub mod Start
