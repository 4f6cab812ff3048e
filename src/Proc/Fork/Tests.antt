-- ===== src/Proc/Fork/Tests.antt =====
-- A process at 500 in a system call, whose registers stand at 0x3000, forks into one at 600.
use wyrm_os.Base.{ℕ, ◌≡◌, inl, refl, false, true, ◌<◌, ◌^◌, some, [], ◌∷◌, arith}
use wyrm_os.Libc.Words.{load_le}
use wyrm_os.Exec.Elf.{u64_at}
use wyrm_os.Mem.Paging.{Paging}
use wyrm_os.Mem.Paging.Space.Clone.{clone_pml-NothingOwned}
use wyrm_os.Cpu.Signal.{words, load_regs}
use wyrm_os.Cpu.Signal.Frame.{AllWords}
use wyrm_os.Proc.Fork.{Task, System, zeroed, k_process_fork}
use wyrm_os.Proc.Fork.Forked.{Forked, k_process_fork-Forked}

abbrev tables : Paging
tables = record {
  pml = 0x1000;
  root_pml = 0x1000;
  high_map = 0;
  cr3 = 0x1000;
  memory = λ a. 0;
  pmm = record { bitmap = λ i. 0; size = 0; free_index = 0; initialized = true };
}

abbrev shell : Task
shell = record {
  name = 115 ∷ 104 ∷ [];
  rsp = 0;
  rbp = 0;
  rip = 0;
  pml = 0x1000;
  kernel_stack = 0x4000;
  syscall_state = 0x3000;
  fds = [];
  mmap_start = 0;
  mmap = [];
  parent = 0;
  children = [];
}

abbrev system : System
system = record {
  sched = record {
    proc = λ p. zeroed;
    process_list = 500 ∷ [];
    ready_queue = [];
    sleep_queue = [];
    locked = λ p. false;
    current = 500;
    idle = 300;
  };
  task = λ p. shell;
  last_pid = 1;
  memory = λ q. 0;
  paging = tables;
}

small : (p : ℕ) → u64_at system.memory p < 2 ^ 64
unfolding load_le
small p = omega arith

words_wide : AllWords (words (load_regs system.memory 0x3000))
unfolding load_regs
words_wide = (
  small _,
  (
    small _,
    (
      small _,
      (
        small _,
        (
          small _,
          (
            small _,
            (
              small _,
              (
                small _,
                (
                  small _,
                  (
                    small _,
                    (
                      small _,
                      (
                        small _,
                        (
                          small _,
                          (
                            small _,
                            (
                              small _,
                              (
                                small _,
                                (
                                  small _,
                                  (small _, (small _, (small _, (small _, (small _, tt))))),
                                ),
                              ),
                            ),
                          ),
                        ),
                      ),
                    ),
                  ),
                ),
              ),
            ),
          ),
        ),
      ),
    ),
  ),
)

k_process_fork-Forked_example :
    (s' : System) × (k_process_fork 0x900 600 0x10000 0x20000 true system ≡ some (2, s'))
    × (s'.paging ≡ (clone_pml-NothingOwned 0x1000 0x20000 tables (λ a. refl)).0)
    × Forked 0x900 600 0x20000 system s'
k_process_fork-Forked_example =
    k_process_fork-Forked 0x900 600 0x10000 0x20000 true system
      (clone_pml-NothingOwned 0x1000 0x20000 tables (λ a. refl)).0 (omega arith) (omega arith)
      (clone_pml-NothingOwned 0x1000 0x20000 tables (λ a. refl)).1 refl words_wide
      (inl (omega arith))
