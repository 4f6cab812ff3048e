-- ===== src/Base/Word.antt =====
-- Arithmetic on 64-bit words, and the macros of kernel/include/util.h and kernel/include/mem.
use Prim.Native.Nat.{ℕ, ◌+◌, ◌-◌, ◌*◌, ◌/◌, ◌%◌, ◌^◌, bit_and}

abbrev pub page_size : ℕ
page_size = 0x1000

abbrev pub u64 : ℕ → ℕ
u64 n = n % 2 ^ 64

-- `-x` and `~x`
abbrev pub neg64 : ℕ → ℕ
neg64 n = (2 ^ 64 - n) % 2 ^ 64

abbrev pub not64 : ℕ → ℕ
not64 n = 2 ^ 64 - 1 - n

-- `ALIGN(value, alignment)`
unfoldable pub align : ℕ → ℕ → ℕ
align value alignment = u64 (value + bit_and (neg64 value) (alignment - 1))

-- `PAGES(size)`
unfoldable pub pages : ℕ → ℕ
unfolding align
pages size = align size page_size / page_size

-- `FRAME(addr)` and `ADDR(frame)`
unfoldable pub frame_of : ℕ → ℕ
frame_of addr = addr / 2 ^ 12

unfoldable pub addr_of : ℕ → ℕ
addr_of frame = u64 (frame * 2 ^ 12)
