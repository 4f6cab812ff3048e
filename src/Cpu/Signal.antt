-- ===== src/Cpu/Signal.antt =====
-- kernel/arch/x86_64/proc/signal.c: how a signal's handler is entered and left, on the registers of the
-- interrupted program and its byte memory.
pub mod Frame
mod Tests
use wyrm_os.Base.{ℕ, ◌+◌, ◌-◌, ◌*◌, ◌^◌, List, [], ◌∷◌}
use wyrm_os.Base.Word.{u64, align}
use wyrm_os.Libc.Bytes.{Bytes}
use wyrm_os.Libc.Words.{load_le, store_le}
use wyrm_os.Exec.Elf.{u64_at}
use wyrm_os.Exec.Start.{Pushed, push_word}

-- `struct registers`
pub record Regs : Type 0 where
  pub r15 : ℕ
  pub r14 : ℕ
  pub r13 : ℕ
  pub r12 : ℕ
  pub r11 : ℕ
  pub r10 : ℕ
  pub r9 : ℕ
  pub r8 : ℕ
  pub rbp : ℕ
  pub rdi : ℕ
  pub rsi : ℕ
  pub rdx : ℕ
  pub rcx : ℕ
  pub rbx : ℕ
  pub rax : ℕ
  pub int_no : ℕ
  pub err_code : ℕ
  pub rip : ℕ
  pub cs : ℕ
  pub rflags : ℕ
  pub rsp : ℕ
  pub ss : ℕ

-- The words of the structure in memory
abbrev pub words : Regs → List ℕ
words r =
    r.r15 ∷ r.r14 ∷ r.r13 ∷ r.r12 ∷ r.r11 ∷ r.r10 ∷ r.r9 ∷ r.r8 ∷ r.rbp ∷ r.rdi ∷ r.rsi ∷ r.rdx
    ∷ r.rcx ∷ r.rbx ∷ r.rax ∷ r.int_no ∷ r.err_code ∷ r.rip ∷ r.cs ∷ r.rflags ∷ r.rsp ∷ r.ss ∷ []

unfoldable pub store_words : Bytes → (p : ℕ) → List ℕ → Bytes
store_words m p [] = m
store_words m p (w ∷ ws) = store_words (store_le m p 8 w) (p + 8) ws

unfoldable pub load_regs : Bytes → (p : ℕ) → Regs
load_regs m p = record {
  r15 = u64_at m p;
  r14 = u64_at m (p + 8);
  r13 = u64_at m (p + 16);
  r12 = u64_at m (p + 24);
  r11 = u64_at m (p + 32);
  r10 = u64_at m (p + 40);
  r9 = u64_at m (p + 48);
  r8 = u64_at m (p + 56);
  rbp = u64_at m (p + 64);
  rdi = u64_at m (p + 72);
  rsi = u64_at m (p + 80);
  rdx = u64_at m (p + 88);
  rcx = u64_at m (p + 96);
  rbx = u64_at m (p + 104);
  rax = u64_at m (p + 112);
  int_no = u64_at m (p + 120);
  err_code = u64_at m (p + 128);
  rip = u64_at m (p + 136);
  cs = u64_at m (p + 144);
  rflags = u64_at m (p + 152);
  rsp = u64_at m (p + 160);
  ss = u64_at m (p + 168);
}

-- `sizeof(regs)`
abbrev pub regs_size : ℕ
regs_size = 176

-- `PUSH` of the registers
unfoldable pub push_regs : Regs → Pushed → Pushed
unfolding store_words
push_regs r s =
    let sp' = u64 (s.sp + (2 ^ 64 - regs_size)) in
    record { sp = sp'; memory = store_words s.memory sp' (words r) }

-- Where arch_user_jmp goes on: at `entry` with a stack
pub record Jump : Type 0 where
  pub entry : ℕ
  pub stack : Pushed

unfoldable pub enter_signal : (entry sig : ℕ) → Regs → Bytes → Jump
unfolding push_regs push_word
enter_signal entry sig r m = record {
  entry = entry;
  stack = push_word sig (push_regs r (record { sp = align r.rsp 16; memory = m }));
}

-- The signal, and what the registers become
unfoldable pub exit_signal : Regs → Bytes → ℕ × Regs
unfolding load_regs
exit_signal r m = (u64_at m r.rsp, load_regs m (u64 (r.rsp + 8)))
