-- ===== src/Cpu.antt =====
-- kernel/cpu and kernel/arch/x86_64/cpu: system calls, the entry of signal handlers and interrupts.
pub mod Syscall
pub mod Signal
pub mod Interrupt
