-- ===== src/Cpu/Signal/Tests.antt =====
-- A handler at 0x4000 for SIGUSR1, on a stack at 0x8008
use wyrm_os.Base.{◌≡◌, refl, arith}
use wyrm_os.Libc.Bytes.{Bytes}
use wyrm_os.Exec.Elf.{u64_at}
use wyrm_os.Cpu.Signal.{Regs, words, enter_signal}
use wyrm_os.Cpu.Signal.Frame.{AllWords, enter_signal-ss}

abbrev program : Regs
program = record {
  r15 = 15;
  r14 = 14;
  r13 = 13;
  r12 = 12;
  r11 = 11;
  r10 = 10;
  r9 = 9;
  r8 = 8;
  rbp = 0x8100;
  rdi = 1;
  rsi = 2;
  rdx = 3;
  rcx = 4;
  rbx = 5;
  rax = 6;
  int_no = 14;
  err_code = 0;
  rip = 0x1000;
  cs = 0x1b;
  rflags = 0x200;
  rsp = 0x8008;
  ss = 0x23;
}

abbrev memory : Bytes
memory q = 0xff

words_wide : AllWords (words program)
words_wide = (
  omega arith,
  (
    omega arith,
    (
      omega arith,
      (
        omega arith,
        (
          omega arith,
          (
            omega arith,
            (
              omega arith,
              (
                omega arith,
                (
                  omega arith,
                  (
                    omega arith,
                    (
                      omega arith,
                      (
                        omega arith,
                        (
                          omega arith,
                          (
                            omega arith,
                            (
                              omega arith,
                              (
                                omega arith,
                                (
                                  omega arith,
                                  (
                                    omega arith,
                                    (omega arith, (omega arith, (omega arith, (omega arith, tt)))),
                                  ),
                                ),
                              ),
                            ),
                          ),
                        ),
                      ),
                    ),
                  ),
                ),
              ),
            ),
          ),
        ),
      ),
    ),
  ),
)

enter_signal-ss_example : u64_at (enter_signal 0x4000 16 program memory).stack.memory 0x8008 ≡ 0x23
enter_signal-ss_example =
    enter_signal-ss 0x4000 16 program memory words_wide (omega arith) (omega arith) (omega arith)
      refl
