-- ===== src/Libc.antt =====
-- lib/libc: character classes, memory blocks and C strings.
pub mod Ctype
pub mod Bytes
pub mod Words
pub mod Memory
pub mod Number
pub mod Printf
pub mod Str
pub mod Env
mod Tests
