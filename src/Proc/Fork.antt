-- ===== src/Proc/Fork.antt =====
-- k_process_create, k_process_spawn and k_process_fork of kernel/proc/process.c. The object, its kernel
-- stack and its top table are what malloc, kmalloc_aligned and vmalloc give, arguments here; the page
-- tables are words apart from the bytes of the kernel stacks. `none` is a panic or a node that is
-- linked twice.
pub mod Forked
mod Tests
use wyrm_os.Base.{
  ℕ, ◌+◌, ◌*◌, ◌==◌, Bool, false, Option, none, some, List, [], ◌∷◌, ◌++◌, take, if◌then◌else◌,
}
use wyrm_os.Base.Fail.{◌>>=◌}
use wyrm_os.Base.Word.{u64}
use wyrm_os.Libc.Bytes.{Bytes}
use wyrm_os.Libc.Memory.{memset}
use wyrm_os.Mem.Mmio.{Block}
use wyrm_os.Mem.Paging.{Paging}
use wyrm_os.Mem.Paging.Space.{clone_pml}
use wyrm_os.Exec.Start.{Pushed}
use wyrm_os.Cpu.Signal.{Regs, load_regs, push_regs}
use wyrm_os.Proc.Process.{Process, Sched, set_proc}
use wyrm_os.Proc.Queues.{k_process_make_ready}
use wyrm_os.Proc.Files.{Slot}

-- PROCESS_NAME_LENGTH, MMAP_START and KERNEL_STACK_SIZE
abbrev pub process_name_length : ℕ
process_name_length = 128

abbrev pub mmap_start_address : ℕ
mmap_start_address = 0x10000000000

abbrev pub kernel_stack_size : ℕ
kernel_stack_size = 32 * 1024

-- The fields of `process` that `Process` leaves out; `rsp`, `rbp`, `rip`, `pml` and `kernel_stack` are
-- those of `ctx`, `parent` and `children` those of `tree_node`.
pub record Task : Type 0 where
  pub name : List ℕ
  pub rsp : ℕ
  pub rbp : ℕ
  pub rip : ℕ
  pub pml : ℕ
  pub kernel_stack : ℕ
  pub syscall_state : ℕ
  pub fds : List (Slot ℕ)
  pub mmap_start : ℕ
  pub mmap : List Block
  pub parent : ℕ
  pub children : List ℕ

-- The scheduler, the tasks, `__pid`, the bytes of the kernel stacks and the page tables
pub record System : Type 0 where
  pub sched : Sched
  pub task : ℕ → Task
  pub last_pid : ℕ
  pub memory : Bytes
  pub paging : Paging

abbrev pub set_task : System → ℕ → Task → System
set_task s p x = record s { task = λ q. if q == p then x else s.task q }

-- A process after its memset
abbrev pub zeroed : Process
zeroed = record {
  pid = 0;
  flags = record { running = false; finished = false; sleeping = false };
  status = 0;
  handler = λ sig. 0;
  pending = λ sig. false;
  sleep_seconds = 0;
  sleep_subseconds = 0;
}

-- `p` is what malloc gives for the object, `mem` what kmalloc_aligned gives for the stack; `owned` tells
-- whether the memory of the sleep node, whose `owner` nothing sets, holds a non-zero `owner`. That of
-- the ready node is set where the process is made ready, before it is read.
unfoldable pub k_process_create : (name : List ℕ) → (p mem : ℕ) → (owned : Bool) → System → System
k_process_create name p mem owned s =
    let sched = set_proc s.sched p zeroed in
    set_task
      (record s {
        sched = record sched { locked = λ q. if q == p then owned else s.sched.locked q };
        memory = (memset s.memory mem 0 kernel_stack_size).1;
      })
      p
      (record {
        name = take process_name_length name;
        rsp = 0;
        rbp = 0;
        rip = 0;
        pml = 0;
        kernel_stack = mem + kernel_stack_size;
        syscall_state = 0;
        fds = [];
        mmap_start = mmap_start_address;
        mmap = [];
        parent = 0;
        children = [];
      })

-- `tree_append_child(parent->tree_node, p->tree_node)`
abbrev pub append_child : (parent p : ℕ) → System → System
append_child parent p s =
    let s1 =
      set_task s parent
        (record (s.task parent) { children = (s.task parent).children ++ (p ∷ []) }) in
    set_task s1 p (record (s1.task p) { parent = parent })

-- 0 is NULL for `parent`.
unfoldable pub k_process_spawn : (p parent : ℕ) → System → System
k_process_spawn p parent s =
    let s1 = if parent == 0 then s else append_child parent p s in
    let pid = u64 (s1.last_pid + 1) in
    record s1 {
      sched = record (set_proc s1.sched p (record (s1.sched.proc p) { pid = pid })) {
        process_list = s1.sched.process_list ++ (p ∷ []);
      };
      last_pid = pid;
    }

-- The context and the registers of the child, whose stack they stand on; `ret` is arch_fork_ret.
unfoldable pub fork_context : (ret p parent pml : ℕ) → System → System
fork_context ret p parent pml s =
    let stack = (s.task p).kernel_stack in
    let r = record (load_regs s.memory (s.task parent).syscall_state) { rax = 0 } in
    let pushed = push_regs r (record { sp = stack; memory = s.memory }) in
    set_task (record s { memory = pushed.memory }) p
      (record (s.task p) {
        pml = pml;
        rsp = pushed.sp;
        rbp = stack;
        rip = ret;
        syscall_state = pushed.sp;
      })

-- What follows the copy of the address space: the object `p` gets its context and its pid and is made
-- ready.
unfoldable pub finish_fork : (ret p copy : ℕ) → System → Paging → Option (ℕ × System)
unfolding fork_context k_process_spawn
finish_fork ret p copy s paging = do
  (let cur = s.sched.current in
      let signals = record (s.sched.proc p) { handler = (s.sched.proc cur).handler } in
      let s1 = record s { sched = set_proc s.sched p signals; paging = paging } in
      let s2 = k_process_spawn p cur (fork_context ret p cur copy s1) in
      (do
        sched ← k_process_make_ready s2.sched p
        some ((sched.proc p).pid, record s2 { sched = sched })))

-- `copy` is what vmalloc gives for the child's top table; the result is its pid.
pub k_process_fork : (ret p mem copy : ℕ) → (owned : Bool) → System → Option (ℕ × System)
unfolding k_process_create finish_fork
k_process_fork ret p mem copy owned s = do
  (let cur = s.sched.current in
      let s1 = k_process_create (s.task cur).name p mem owned s in
      (do paging ← clone_pml (s1.task cur).pml copy s1.paging; finish_fork ret p copy s1 paging))
