-- ===== src/Cpu/Syscall/Tests.antt =====
-- System calls of a process with one file of nine bytes, which reads as far as the file goes.
use wyrm_os.Base.{ℕ, ◌+◌, ◌-◌, ◌≡◌, refl, true, false, none, some, [], ◌∷◌, leb, if◌then◌else◌}
use wyrm_os.Proc.Process.{Process}
use wyrm_os.Proc.Files.{FdEntry, entry, SetAt}
use wyrm_os.Cpu.Syscall.{Kernel, State, sys_seek, sys_read}
use wyrm_os.Cpu.Syscall.Seek.{sys_seek-sys_read}

abbrev kernel : Kernel ℕ ℕ
kernel = record {
  validate_ptr = λ s ptr size. leb ptr 0x7000;
  k_fs_open = λ s path flags. (none, s);
  k_fs_read =
      λ s node offset size buffer. (if leb (offset + size) 9 then size else 9 - offset, s + 1);
  k_fs_write = λ s node offset size buffer. (0, s);
  k_fs_readdir = λ s node out index. (0, s);
  node_size = λ s node. 9;
  k_process_fork = λ sched s. (0, sched, s);
  k_exec = λ s path argc argv envp. (0, s);
  k_mem_mmap = λ s start size flags prot fd offset. (none, s);
  k_mem_munmap = λ s start size. s;
  arch_get_ticks = λ s. 0;
  arch_get_cpu_speed = λ s. 1;
  read_word = λ s a. 0;
  write_word = λ s a v. s;
}

abbrev process : Process
process = record {
  pid = 1;
  flags = record { running = true; finished = false; sleeping = false };
  status = 0;
  handler = λ sig. 0;
  pending = λ sig. false;
  sleep_seconds = 0;
  sleep_subseconds = 0;
}

abbrev file : FdEntry ℕ
file = record { id = 0; node = 3; offset = 0 }

abbrev state : State ℕ ℕ
state = record {
  fds = entry file ∷ [];
  sched = record {
    proc = λ p. process;
    process_list = 100 ∷ [];
    ready_queue = [];
    sleep_queue = [];
    locked = λ p. false;
    current = 100;
    idle = 300;
  };
  rest = 0;
}

-- SYS_CLOSE of descriptor 0
sys_seek-sys_read_example :
    (s' s'' : State ℕ ℕ) × (sys_seek kernel 0 4 0 state ≡ some (4, s'))
    × (sys_read kernel 0 20 0x1000 s' ≡ some (5, s''))
    × (s''.rest ≡ 1)
    × SetAt state.fds s''.fds 0 (entry (record file { offset = 9 }))
sys_seek-sys_read_example = sys_seek-sys_read kernel 0 4 20 0x1000 file state refl refl
