-- ===== src/Cpu/Interrupt.antt =====
-- __dispatch_interrupt of kernel/arch/x86_64/cpu/interrupt.c and __handle_pagefault of
-- kernel/arch/x86_64/mem/paging.c. `none` is a panic, a handler that does not come back, or a read
-- behind a table.
pub mod Fault
mod Tests
use wyrm_os.Base.{
  ℕ, ◌+◌, ◌-◌, Bool, not, ◌&&◌, ◌||◌, Option, none, some, ltb, leb, ◌==◌, if◌then◌else◌, pos,
}
use wyrm_os.Base.Fail.{◌>>=◌}
use wyrm_os.Libc.Bytes.{Bytes}
use wyrm_os.Proc.Process.{Sched}
use wyrm_os.Proc.Signals.{k_process_send_signal}
use wyrm_os.Proc.Invoke.{Outcome, back, exited, entered, k_process_invoke_signals}
use wyrm_os.Cpu.Signal.{Regs, Jump, enter_signal, exit_signal}

-- SIGSEGV, SIG_RET_MAGIC, MAX_INTERRUPT, IRQ_BASE and MAX_IRQ
abbrev pub sigsegv : ℕ
sigsegv = 11

abbrev pub sig_ret_magic : ℕ
sig_ret_magic = 0x123

abbrev pub max_interrupt : ℕ
max_interrupt = 256

abbrev pub irq_base : ℕ
irq_base = 32

abbrev pub max_irq : ℕ
max_irq = 16

-- What an interrupt finds: the scheduler, the registers at the stack's end, and the memory of the
-- program that runs
pub record Trap : Type 0 where
  pub sched : Sched
  pub regs : Regs
  pub memory : Bytes

-- Where the processor goes on: in what was interrupted, where an acknowledged line is named; in
-- another process; or at a handler
pub data After : Type 0 where
  acked : (irq : ℕ) → Trap → After
  resumed : Trap → After
  switched : Sched → After
  jumped : Jump → Sched → After

-- There is a current process, and its program was interrupted.
abbrev pub from_program : Trap → Bool
from_program t = not (t.sched.current == 0) && not (t.regs.cs == 8)

-- k_process_send_signal to the current process
unfoldable pub signal_current : (sig : ℕ) → Trap → Option Trap
signal_current sig t = do
  (r, s) ← k_process_send_signal t.sched (t.sched.proc t.sched.current).pid (pos sig)
  some (record t { sched = s })

-- `address` is that of the page fault.
pub handle_pagefault : (address : ℕ) → Trap → Option Trap
unfolding signal_current
handle_pagefault address t =
    if not (from_program t)
    then none
    else if address == sig_ret_magic
    then some (record t { regs = (exit_signal t.regs t.memory).1 })
    else signal_current sigsegv t

-- The end of __dispatch_interrupt
pub leave : (rounds k : ℕ) → Trap → Option After
leave rounds k t =
    if from_program t
    then (do
      o ← k_process_invoke_signals rounds k t.sched
      elim o [
        | back handled s ↦ some (resumed (record t { sched = s }))
        | exited code s ↦ some (switched s)
        | entered handler sig s ↦ some (jumped (enter_signal handler sig t.regs t.memory) s)
      ])
    else some (resumed t)

-- `IS_IRQ(n)`
abbrev pub is_irq : ℕ → Bool
is_irq n = leb irq_base n && leb n (irq_base + max_irq)

-- `handlers n` is the entry of the table; the result of a handler is what it leaves.
pub dispatch_interrupt :
    (handlers : ℕ → Option (Trap → Option Trap)) → (rounds k : ℕ) → Trap → Option After
unfolding leave signal_current
dispatch_interrupt handlers rounds k t =
    let n = t.regs.int_no in
    if ltb max_interrupt n || (n == max_interrupt) then none else elim (handlers n) [
      | some handler ↦ do t' ← handler t; leave rounds k t'
      | none ↦
          if is_irq n
          then some (acked (n - irq_base) t)
          else if not (from_program t)
          then none
          else (do t' ← signal_current sigsegv t; leave rounds k t')
    ]
