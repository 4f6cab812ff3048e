-- ===== src/Cpu/Syscall.antt =====
-- kernel/cpu/syscall.c over the models of processes (Proc) and of their open files (Proc/Files). An
-- `int` result is its pattern of 32 bits. `none` is a fault: an fs_node is taken for an fd_entry, or a
-- scheduler function fails.
pub mod Table
pub mod Seek
mod Tests
use wyrm_os.Base.{
  ℕ, zero, suc, ◌+◌, ◌-◌, ◌*◌, ◌/◌, ◌%◌, ◌^◌, ◌≡◌, Bool, true, false, ◌||◌, not, ℤ, pos, negsuc,
  Option, none, some, List, [], ◌∷◌, ltb, leb, ◌==◌, if◌then◌else◌, get_elem?,
}
use wyrm_os.Base.Fail.{◌>>=◌}
use wyrm_os.Base.Word.{u64}
use wyrm_os.Libc.Number.{u32, lt_int}
use wyrm_os.Proc.Process.{Process, Sched, set_proc}
use wyrm_os.Proc.Files.{
  FdEntry, Slot, closed, entry, raw, set, k_process_open_file, k_process_get_file,
}
use wyrm_os.Proc.Queues.{k_process_switch, k_process_exit}
use wyrm_os.Proc.Signals.{k_process_send_signal, nsig}
use wyrm_os.Proc.Sleep.{k_process_sleep, subseconds_per_second}

abbrev pub minus_one : ℕ
minus_one = 2 ^ 32 - 1

-- `sizeof(struct dirent)`
abbrev pub dirent_size : ℕ
dirent_size = 256

-- `__syscall_amount`
abbrev pub syscall_amount : ℕ
syscall_amount = 0x100

-- What the handlers call in the rest of the kernel, whose state is `S`; the size of a node and words
-- of memory as well.
pub record Kernel (Node S : Type 0) : Type 0 where
  pub validate_ptr : S → (ptr size : ℕ) → Bool
  pub k_fs_open : S → (path flags : ℕ) → Option Node × S
  pub k_fs_read : S → Node → (offset size buffer : ℕ) → ℕ × S
  pub k_fs_write : S → Node → (offset size buffer : ℕ) → ℕ × S
  pub k_fs_readdir : S → Node → (out index : ℕ) → ℕ × S
  pub node_size : S → Node → ℕ
  pub k_process_fork : Sched → S → ℕ × Sched × S
  pub k_exec : S → (path argc argv envp : ℕ) → ℕ × S
  pub k_mem_mmap : S → (start size flags prot fd offset : ℕ) → Option ℕ × S
  pub k_mem_munmap : S → (start size : ℕ) → S
  pub arch_get_ticks : S → ℕ
  pub arch_get_cpu_speed : S → ℕ
  pub read_word : S → ℕ → ℕ
  pub write_word : S → ℕ → ℕ → S

-- The current process's files, the scheduler, and the rest
pub record State (Node S : Type 0) : Type 0 where
  pub fds : List (Slot Node)
  pub sched : Sched
  pub rest : S

-- An `int` pattern as an integer, and back
abbrev pub to_int : ℕ → ℤ
to_int n = if lt_int n 0 then negsuc (2 ^ 32 - 1 - u32 n) else pos (u32 n)

abbrev pub from_int : ℤ → ℕ
from_int (pos n) = u32 n
from_int (negsuc n) = u32 (2 ^ 32 - 1 - u32 n)

module _ {Node S : Type 0} (k : Kernel Node S) where
  abbrev pub Answer : Type 0
  Answer = Option (ℕ × State Node S)

  abbrev pub refuse : State Node S → Answer
  refuse s = some (minus_one, s)

  abbrev pub answer : State Node S → ℕ × S → Answer
  answer s (n, rest) = some (u32 n, record s { rest = rest })

  -- The test of what k_process_get_file gives for NULL
  abbrev pub with_slot : State Node S → Slot Node → (FdEntry Node → Answer) → Answer
  with_slot s closed f = refuse s
  with_slot s (entry e) f = f e
  with_slot s (raw n) f = none

  abbrev pub with_file : State Node S → (fd : ℕ) → (FdEntry Node → Answer) → Answer
  with_file s fd f = with_slot s (k_process_get_file s.fds fd) f

  abbrev pub set_offset : State Node S → (fd : ℕ) → FdEntry Node → ℕ → State Node S
  set_offset s fd e offset = record s { fds = set s.fds fd (entry (record e { offset = offset })) }

  unfoldable pub sys_open : (path flags : ℕ) → State Node S → Answer
  sys_open path flags s =
      let (node, rest) = k.k_fs_open s.rest path flags in
      elim node [
        | none ↦ refuse (record s { rest = rest })
        | some n ↦
            let (fd, fds) = k_process_open_file s.fds n in
            some (u32 fd, record s { fds = fds; rest = rest })
      ]

  -- The end of sys_read and sys_write: a positive count moves the offset.
  abbrev pub moved_offset : State Node S → (fd : ℕ) → FdEntry Node → ℕ × S → Answer
  moved_offset s fd e (n, rest) =
      let s' : State Node S = record s { rest = rest } in
      some (u32 n, if lt_int 0 (u32 n) then set_offset s' fd e (u64 (e.offset + u32 n)) else s')

  unfoldable pub sys_write : (fd size buffer : ℕ) → State Node S → Answer
  sys_write fd size buffer s =
      if not (k.validate_ptr s.rest buffer size)
      then refuse s
      else with_file s fd
          (λ e. moved_offset s fd e (k.k_fs_write s.rest e.node e.offset size buffer))

  unfoldable pub sys_read : (fd size buffer : ℕ) → State Node S → Answer
  sys_read fd size buffer s =
      if not (k.validate_ptr s.rest buffer size)
      then refuse s
      else with_file s fd
          (λ e. moved_offset s fd e (k.k_fs_read s.rest e.node e.offset size buffer))

  -- SEEK_SET 0, SEEK_CUR 1, SEEK_END 2
  unfoldable pub seek_to : S → FdEntry Node → (offset origin : ℕ) → ℕ
  seek_to rest e offset origin =
      if origin == 1
      then u64 (e.offset + offset)
      else if origin == 0
      then offset
      else if origin == 2
      then u64 (k.node_size rest e.node + offset)
      else e.offset

  unfoldable pub sys_seek : (fd offset origin : ℕ) → State Node S → Answer
  sys_seek fd offset origin s = with_file s fd (λ e.
      let offset' : ℕ = seek_to s.rest e offset origin in
      some (u32 offset', set_offset s fd e offset'))

  unfoldable pub sys_readdir : (fd index out : ℕ) → State Node S → Answer
  sys_readdir fd index out s =
      if not (k.validate_ptr s.rest out dirent_size)
      then refuse s
      else with_file s fd (λ e. answer s (k.k_fs_readdir s.rest e.node out index))

  pub sys_fork : State Node S → Answer
  sys_fork s =
      let (pid, sched, rest) = k.k_process_fork s.sched s.rest in
      some (u32 pid, record s { sched = sched; rest = rest })

  pub sys_exit : (rounds code : ℕ) → State Node S → Answer
  sys_exit rounds code s =
      k_process_exit rounds s.sched code >>= λ sched. some (minus_one, record s { sched = sched })

  pub sys_kill : (pid sig : ℕ) → State Node S → Answer
  sys_kill pid sig s = k_process_send_signal s.sched pid (to_int sig) >>= λ (r, sched).
      some (from_int r, record s { sched = sched })

  pub sys_getpid : State Node S → Answer
  sys_getpid s = some (u32 (s.sched.proc s.sched.current).pid, s)

  pub sys_signal : (sig handler old : ℕ) → State Node S → Answer
  sys_signal sig handler old s =
      if lt_int sig 0 || lt_int nsig sig
      then refuse s
      else if not (k.validate_ptr s.rest old 8)
      then refuse s
      else let p : Process = s.sched.proc s.sched.current in
        let p' : Process = record p {
          handler = λ n. if n == u32 sig then handler else p.handler n;
        } in
        some (
          0,
          record s {
            rest = k.write_word s.rest old (p.handler (u32 sig));
            sched = set_proc s.sched s.sched.current p';
          },
        )

  pub sys_sleep : (rounds seconds subseconds relative : ℕ) → State Node S → Answer
  sys_sleep rounds seconds subseconds relative s =
      let ticks : ℕ = k.arch_get_ticks s.rest / k.arch_get_cpu_speed s.rest in
      let asleep : Sched =
        if u32 relative == 0
        then k_process_sleep s.sched seconds subseconds
        else k_process_sleep s.sched (u64 (seconds + ticks / subseconds_per_second))
            (u64 (subseconds + ticks % subseconds_per_second)) in
      k_process_switch rounds asleep false >>= λ sched. some (0, record s { sched = sched })

  -- `while(*(argv + argc))`
  pub count_args : (rounds : ℕ) → S → (argv argc : ℕ) → Option ℕ
  count_args zero rest argv argc = none
  count_args (suc n) rest argv argc =
      if k.read_word rest (argv + 8 * argc) == 0
      then some argc
      else count_args n rest argv (argc + 1)

  pub sys_exec : (rounds path argv envp : ℕ) → State Node S → Answer
  unfolding count_args
  sys_exec rounds path argv envp s =
      (if argv == 0 then some 0 else count_args rounds s.rest argv 0) >>= λ argc.
      answer s (k.k_exec s.rest path argc argv envp)

  pub sys_mmap : (start size flags prot fd offset : ℕ) → State Node S → Answer
  sys_mmap start size flags prot fd offset s =
      if not (k.validate_ptr s.rest start 8)
      then refuse s
      else let (block, rest) =
          k.k_mem_mmap s.rest (k.read_word s.rest start) size (flags % 2 ^ 8) (u32 prot) (u32 fd)
            offset in
        elim block [
          | none ↦ some (minus_one, record s { rest = k.write_word rest start 0 })
          | some at ↦ some (0, record s { rest = k.write_word rest start at })
        ]

  pub sys_munmap : (start size : ℕ) → State Node S → Answer
  sys_munmap start size s = some (0, record s { rest = k.k_mem_munmap s.rest start size })

  -- `__syscall_table`; `rounds` bounds the loops of the scheduler and of sys_exec.
  unfoldable pub syscall_table : (rounds n : ℕ) → Option ((a b c d e f : ℕ) → State Node S → Answer)
  syscall_table rounds n =
      if n == 0
      then some (λ a b c d e f. sys_open a (u32 b))
      else if n == 1
      then some (λ a b c d e f. sys_read (u32 a) b c)
      else if n == 2
      then some (λ a b c d e f. sys_write (u32 a) b c)
      else if n == 3
      then some (λ a b c d e f. sys_fork)
      else if n == 4
      then some (λ a b c d e f. sys_exit rounds (u32 a))
      else if n == 5
      then some (λ a b c d e f. sys_getpid)
      else if n == 6
      then some (λ a b c d e f. sys_kill a (u32 b))
      else if n == 7
      then some (λ a b c d e f. sys_signal (u32 a) b c)
      else if n == 8
      then some (λ a b c d e f. sys_sleep rounds a b c)
      else if n == 9
      then some (λ a b c d e f. sys_mmap a b c d e f)
      else if n == 10
      then some (λ a b c d e f. sys_munmap a b)
      else if n == 12
      then some (λ a b c d e f. sys_seek (u32 a) b (c % 2 ^ 8))
      else if n == 13
      then some (λ a b c d e f. sys_readdir (u32 a) b c)
      else if n == 14
      then some (λ a b c d e f. sys_exec rounds a b c)
      else if n == 0xFF
      then some (λ a b c d e f s. some (0, s))
      else none

  unfoldable pub k_invoke_syscall : (rounds n a b c d e f : ℕ) → State Node S → Answer
  k_invoke_syscall rounds n a b c d e f s =
      if leb syscall_amount n
      then refuse s
      else elim (syscall_table rounds n) [ none ↦ refuse s | some handler ↦ handler a b c d e f s ]
