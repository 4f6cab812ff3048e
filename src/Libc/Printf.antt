-- ===== src/Libc/Printf.antt =====
-- lib/libc/stdio/printf.c: conversions, the machine that reads the format, and buffers.
pub mod Put
pub mod Format
pub mod Machine
pub mod Keeps
pub mod Ends
pub mod Buffer
pub mod Plain
pub mod Digits
pub mod Minimum
mod Tests
