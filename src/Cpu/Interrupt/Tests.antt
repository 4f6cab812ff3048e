-- ===== src/Cpu/Interrupt/Tests.antt =====
-- A program that follows NULL, and one whose handler of SIGUSR1 comes back.
use wyrm_os.Base.{
  ℕ, ◌≡◌, refl, true, false, Option, none, some, [], ◌∷◌, ◌==◌, if◌then◌else◌, arith,
}
use wyrm_os.Libc.Bytes.{Bytes}
use wyrm_os.Proc.Process.{Process, Sched}
use wyrm_os.Proc.Signals.{k_process_get_by_pid}
use wyrm_os.Cpu.Signal.{Regs, words, enter_signal}
use wyrm_os.Cpu.Signal.Frame.{AllWords}
use wyrm_os.Cpu.Interrupt.{Trap, After, sig_ret_magic, handle_pagefault, leave, dispatch_interrupt}
use wyrm_os.Cpu.Interrupt.Fault.{Answered, dispatch_interrupt-Answered, dispatch_interrupt-leave}

abbrev blank : Process
blank = record {
  pid = 5;
  flags = record { running = true; finished = false; sleeping = false };
  status = 0;
  handler = λ sig. 0;
  pending = λ sig. false;
  sleep_seconds = 0;
  sleep_subseconds = 0;
}

abbrev state : Sched
state = record {
  proc = λ p. blank;
  process_list = 500 ∷ [];
  ready_queue = 200 ∷ [];
  sleep_queue = [];
  locked = λ p. false;
  current = 500;
  idle = 300;
}

abbrev program : Regs
program = record {
  r15 = 15;
  r14 = 14;
  r13 = 13;
  r12 = 12;
  r11 = 11;
  r10 = 10;
  r9 = 9;
  r8 = 8;
  rbp = 0x8100;
  rdi = 1;
  rsi = 2;
  rdx = 3;
  rcx = 4;
  rbx = 5;
  rax = 6;
  int_no = 14;
  err_code = 0;
  rip = 0x1000;
  cs = 0x1b;
  rflags = 0x200;
  rsp = 0x8008;
  ss = 0x23;
}

abbrev faulted : Trap
faulted = record { sched = state; regs = program; memory = λ q. 0xff }

abbrev table : (address : ℕ) → ℕ → Option (Trap → Option Trap)
table address n = if n == 14 then some (handle_pagefault address) else none

dispatch_interrupt-Answered_example :
    (a : After) × (dispatch_interrupt (table 0) 20 2 faulted ≡ some a) × Answered faulted a
unfolding k_process_get_by_pid
dispatch_interrupt-Answered_example =
    dispatch_interrupt-Answered (table 0) 20 2 0 faulted refl refl refl (omega arith) refl
      (omega arith)
      (record {
        awake = refl;
        known = λ j lt. cc;
        apart = omega arith;
        lazy = refl;
        few = omega arith;
      })

abbrev memory : Bytes
memory q = 0xff

-- The registers of the handler where it comes back
abbrev returned : Trap
returned = record {
  sched = state;
  regs = record program { rsp = (enter_signal 0x4000 16 program memory).stack.sp; rip = 0x123 };
  memory = (enter_signal 0x4000 16 program memory).stack.memory;
}

words_wide : AllWords (words program)
words_wide = (
  omega arith,
  (
    omega arith,
    (
      omega arith,
      (
        omega arith,
        (
          omega arith,
          (
            omega arith,
            (
              omega arith,
              (
                omega arith,
                (
                  omega arith,
                  (
                    omega arith,
                    (
                      omega arith,
                      (
                        omega arith,
                        (
                          omega arith,
                          (
                            omega arith,
                            (
                              omega arith,
                              (
                                omega arith,
                                (
                                  omega arith,
                                  (
                                    omega arith,
                                    (omega arith, (omega arith, (omega arith, (omega arith, tt)))),
                                  ),
                                ),
                              ),
                            ),
                          ),
                        ),
                      ),
                    ),
                  ),
                ),
              ),
            ),
          ),
        ),
      ),
    ),
  ),
)

dispatch_interrupt-leave_example :
    dispatch_interrupt (table sig_ret_magic) 20 2 returned
    ≡ leave 20 2 (record returned { regs = program })
dispatch_interrupt-leave_example =
    dispatch_interrupt-leave (table sig_ret_magic) 20 2 0x4000 16 program memory returned refl refl
      refl words_wide (omega arith) (omega arith) (omega arith) refl (λ q low high. refl)
