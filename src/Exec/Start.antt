-- ===== src/Exec/Start.antt =====
-- k_elf_exec of kernel/exec/elf.c: where the program's segments and its stack go, and the arguments on
-- the stack. Strings are their bytes; the memory is that of the new program.
pub mod Segments
pub mod Stack
pub mod Vector
mod Tests
use wyrm_os.Base.{
  ℕ, zero, suc, ◌+◌, ◌-◌, ◌*◌, ◌/◌, ◌%◌, ◌^◌, Option, none, some, List, [], ◌∷◌, ltb, ◌==◌,
  if◌then◌else◌,
}
use wyrm_os.Base.Word.{u64, page_size, pages, align}
use wyrm_os.Libc.Bytes.{Bytes, store}
use wyrm_os.Libc.Words.{load_le, store_le}
use wyrm_os.Exec.Elf.{u16_at, u32_at, u64_at}

-- PT_LOAD
abbrev pub pt_load : ℕ
pt_load = 1

-- The fields of `elf64` and `phdr64` that the loop reads
abbrev pub e_phoff : Bytes → ℕ → ℕ
e_phoff m elf = u64_at m (elf + 32)

abbrev pub e_phentsize : Bytes → ℕ → ℕ
e_phentsize m elf = u16_at m (elf + 54)

abbrev pub e_phnum : Bytes → ℕ → ℕ
e_phnum m elf = u16_at m (elf + 56)

abbrev pub p_type : Bytes → ℕ → ℕ
p_type m p = u32_at m p

abbrev pub p_offset : Bytes → ℕ → ℕ
p_offset m p = u64_at m (p + 8)

abbrev pub p_vaddr : Bytes → ℕ → ℕ
p_vaddr m p = u64_at m (p + 16)

abbrev pub p_filesz : Bytes → ℕ → ℕ
p_filesz m p = u64_at m (p + 32)

abbrev pub p_memsz : Bytes → ℕ → ℕ
p_memsz m p = u64_at m (p + 40)

-- A segment: the pages that are mapped for it, the bytes that are cleared, and those copied from the
-- file
pub record Segment : Type 0 where
  pub start : ℕ
  pub count : ℕ
  pub vaddr : ℕ
  pub memsz : ℕ
  pub offset : ℕ
  pub filesz : ℕ

-- The case PT_LOAD
unfoldable pub segment_of : Bytes → (phdr : ℕ) → Segment
segment_of m p =
    let low = p_vaddr m p % page_size in
    record {
      start = if low == 0 then p_vaddr m p else p_vaddr m p - low;
      count = if low == 0 then pages (p_memsz m p) else pages (u64 (p_memsz m p + low));
      vaddr = p_vaddr m p;
      memsz = p_memsz m p;
      offset = p_offset m p;
      filesz = p_filesz m p;
    }

abbrev pub segment_end : Segment → ℕ
segment_end s = u64 (s.start + s.count * page_size)

-- What the loop over the program headers has found: the segments, the last one first, and `exec_end`
pub record Layout : Type 0 where
  pub segments : List Segment
  pub exec_end : ℕ

unfoldable pub add_segment : Segment → Layout → Layout
add_segment s l = record {
  segments = s ∷ l.segments;
  exec_end = if ltb l.exec_end (segment_end s) then segment_end s else l.exec_end;
}

-- The loop from the header at `phdr` on
pub layout_loop : (left : ℕ) → Bytes → (elf phdr : ℕ) → Layout → Layout
unfolding add_segment segment_of
layout_loop zero m elf phdr l = l
layout_loop (suc left) m elf phdr l =
    layout_loop left m elf (u64 (phdr + e_phentsize m elf))
      (if p_type m phdr == pt_load then add_segment (segment_of m phdr) l else l)

pub exec_layout : Bytes → (elf : ℕ) → Layout
unfolding layout_loop
exec_layout m elf =
    layout_loop (e_phnum m elf) m elf (u64 (elf + e_phoff m elf))
      (record { segments = []; exec_end = 0 })

-- USER_STACK_SIZE
abbrev pub user_stack_size : ℕ
user_stack_size = 65536

-- The stack pointer and the memory
pub record Pushed : Type 0 where
  pub sp : ℕ
  pub memory : Bytes

-- `PUSH` of a char and of a pointer
unfoldable pub push_char : ℕ → Pushed → Pushed
push_char c s =
    let sp' = u64 (s.sp + (2 ^ 64 - 1)) in record { sp = sp'; memory = store s.memory sp' c }

unfoldable pub push_word : ℕ → Pushed → Pushed
push_word v s =
    let sp' = u64 (s.sp + (2 ^ 64 - 8)) in record { sp = sp'; memory = store_le s.memory sp' 8 v }

-- The loop over the bytes of a string, from the last one to the first
unfoldable pub push_chars : List ℕ → Pushed → Pushed
unfolding push_char
push_chars [] s = s
push_chars (c ∷ cs) s = push_char c (push_chars cs s)

unfoldable pub push_string : List ℕ → Pushed → Pushed
unfolding push_chars push_char
push_string cs s = push_chars cs (push_char 0 s)

-- The loop over the strings, from the last one to the first, with their places in `tmp`
unfoldable pub push_strings : List (List ℕ) → Pushed → List ℕ × Pushed
unfolding push_string
push_strings [] s = ([], s)
push_strings (cs ∷ strings) s =
    let (tmp, s') = push_strings strings s in let s'' = push_string cs s' in (s''.sp ∷ tmp, s'')

-- The loop over the places, from the NULL behind the last one to the first
unfoldable pub push_places : List ℕ → Pushed → Pushed
unfolding push_word
push_places [] s = push_word 0 s
push_places (p ∷ tmp) s = push_word p (push_places tmp s)

-- The strings, and then the places
unfoldable pub push_vector : List (List ℕ) → Pushed → Pushed
unfolding push_strings push_places
push_vector strings s = let (tmp, s') = push_strings strings s in push_places tmp s'

-- `argv_pointer`, `envp_pointer`, and the stack pointer of the program with the memory
pub record Start : Type 0 where
  pub argv_pointer : ℕ
  pub envp_pointer : ℕ
  pub user_stack : ℕ
  pub memory : Bytes

-- `top` is `exec_end + USER_STACK_SIZE`.
pub start_stack : (argv envp : List (List ℕ)) → (top : ℕ) → Bytes → Start
unfolding push_vector
start_stack argv envp top m =
    let a = push_vector argv (record { sp = top; memory = m }) in
    let e = push_vector envp a in
    record {
      argv_pointer = a.sp;
      envp_pointer = e.sp;
      user_stack = align e.sp 16;
      memory = e.memory;
    }
