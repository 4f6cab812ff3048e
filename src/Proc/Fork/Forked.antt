-- ===== src/Proc/Fork/Forked.antt =====
-- What k_process_fork leaves.
use wyrm_os.Base.{
  ℕ, ◌+◌, ◌-◌, ◌^◌, ◌≤◌, ◌≡◌, Bool, ◌≢◌, ◌∙◌, ◌⊎◌, refl, sym, ap, true, false, ◌&&◌, Option, some,
  [], ◌∷◌, ◌++◌, ltb, leb, ◌==◌, take, arith, given,
}
use mathlib.Core.Path.{subst}
use wyrm_os.Base.Fail.{◌>>=◌}
use wyrm_os.Base.Word.{u64}
use wyrm_os.Libc.Bytes.{Bytes}
use wyrm_os.Libc.Memory.{memset-within}
use wyrm_os.Mem.Paging.{Paging}
use wyrm_os.Mem.Paging.Space.{clone_pml}
use wyrm_os.Exec.Start.{Pushed}
use wyrm_os.Cpu.Signal.{Regs, words, load_regs, push_regs}
use wyrm_os.Cpu.Signal.Frame.{AllWords, store_words-Stored, load_regs-Stored, load_regs_same}
use wyrm_os.Proc.Process.{Process, Sched, set_proc, is_ready}
use wyrm_os.Proc.Queues.{k_process_make_ready, link_ready}
use wyrm_os.Proc.Fork.{
  System, kernel_stack_size, mmap_start_address, process_name_length, k_process_create,
  fork_context, k_process_spawn, k_process_fork, finish_fork,
}

-- The child `p` of the current process is at the end of the list of processes and the last one that
-- is ready; it has the next pid, the name and the handlers of its parent, no child, no signal that
-- is pending, no open file and no mapping of its own, and its kernel stack holds the parent's
-- registers with 0 in `rax`. The others are as they were, but that the parent has one child more,
-- which changes no other field of it.
pub record Forked (ret p copy : ℕ) (s s' : System) : Type 0 where
  pub process_list : s'.sched.process_list ≡ s.sched.process_list ++ (p ∷ [])
  pub ready_queue : s'.sched.ready_queue ≡ p ∷ s.sched.ready_queue
  pub pid : (s'.sched.proc p).pid ≡ u64 (s.last_pid + 1)
  pub handler : (s'.sched.proc p).handler ≡ (s.sched.proc s.sched.current).handler
  pub pending : (j : ℕ) → (s'.sched.proc p).pending j ≡ false
  pub others : (q : ℕ) → q ≢ p → s'.sched.proc q ≡ s.sched.proc q
  pub tasks : (q : ℕ) → q ≢ p → q ≢ s.sched.current → s'.task q ≡ s.task q
  pub current : s'.sched.current ≡ s.sched.current
  pub locked : (q : ℕ) → q ≢ p → s'.sched.locked q ≡ s.sched.locked q
  pub parent : (s'.task p).parent ≡ s.sched.current
  pub parent_task :
      s'.task s.sched.current
      ≡ record (s.task s.sched.current) { children = (s.task s.sched.current).children ++ (p ∷ []) }
  pub pml : (s'.task p).pml ≡ copy
  pub rip : (s'.task p).rip ≡ ret
  pub rsp : (s'.task p).rsp ≡ (s'.task p).syscall_state
  pub fds : (s'.task p).fds ≡ []
  pub mmap : (s'.task p).mmap ≡ []
  pub mmap_start : (s'.task p).mmap_start ≡ mmap_start_address
  pub name : (s'.task p).name ≡ take process_name_length (s.task s.sched.current).name
  pub no_children : (s'.task p).children ≡ []
  pub state :
      load_regs s'.memory (s'.task p).syscall_state
      ≡ record (load_regs s.memory (s.task s.sched.current).syscall_state) { rax = 0 }

-- registers that are pushed where there is room can be read there
pushed_regs :
    (r : Regs) (s : Pushed)
    → AllWords (words r)
    → load_regs (push_regs r s).memory (push_regs r s).sp ≡ r
unfolding push_regs
pushed_regs r s wide =
    load_regs-Stored _ _ r
      (store_words-Stored s.memory (u64 (s.sp + (2 ^ 64 - 176))) (words r) wide)

-- the registers on the child's stack, whatever it is
fork_context-regs :
    (ret p parent pml : ℕ) (t : System)
    → AllWords (words (record (load_regs t.memory (t.task parent).syscall_state) { rax = 0 }))
    → load_regs
        (fork_context ret p parent pml t).memory
        ((fork_context ret p parent pml t).task p).syscall_state
      ≡ record (load_regs t.memory (t.task parent).syscall_state) { rax = 0 }
unfolding fork_context
fork_context-regs ret p parent pml t wide =
    let self : (p == p) ≡ true = ground arith in rw self (pushed_regs _ _ wide)

AllWords-rax : (r : Regs) → AllWords (words r) → AllWords (words (record r { rax = 0 }))
AllWords-rax r
      (
        e0,
        (
          e1,
          (
            e2,
            (
              e3,
              (
                e4,
                (
                  e5,
                  (
                    e6,
                    (
                      e7,
                      (
                        e8,
                        (
                          e9,
                          (
                            e10,
                            (
                              e11,
                              (e12, (e13, (_, (e15, (e16, (e17, (e18, (e19, (e20, (e21, _)))))))))),
                            ),
                          ),
                        ),
                      ),
                    ),
                  ),
                ),
              ),
            ),
          ),
        ),
      ) =
    (
      e0,
      (
        e1,
        (
          e2,
          (
            e3,
            (
              e4,
              (
                e5,
                (
                  e6,
                  (
                    e7,
                    (
                      e8,
                      (
                        e9,
                        (
                          e10,
                          (
                            e11,
                            (
                              e12,
                              (
                                e13,
                                (omega arith, (e15, (e16, (e17, (e18, (e19, (e20, (e21, tt)))))))),
                              ),
                            ),
                          ),
                        ),
                      ),
                    ),
                  ),
                ),
              ),
            ),
          ),
        ),
      ),
    )

module _ (ret p mem copy : ℕ) (owned : Bool) (s : System) (pg : Paging) (new : p ≢ s.sched.current)
    (user : s.sched.current ≢ 0)
    (clone : clone_pml (s.task s.sched.current).pml copy s.paging ≡ some pg)
    (unlinked : is_ready s.sched p ≡ false) where
  abbrev cur : ℕ
  cur = s.sched.current

  abbrev created : System
  created = k_process_create (s.task cur).name p mem owned s

  abbrev signals : Process
  signals = record (created.sched.proc p) { handler = (created.sched.proc cur).handler }

  abbrev copied : System
  copied =
      fork_context ret p cur copy
        (record created { sched = set_proc created.sched p signals; paging = pg })

  abbrev spawned : System
  spawned = k_process_spawn p cur copied

  abbrev forked : System
  forked = record spawned { sched = link_ready spawned.sched p }

  apart : (cur == p) ≡ false
  apart = ground arith

  self : (p == p) ≡ true
  self = ground arith

  no_null : (cur == 0) ≡ false
  no_null = ground arith

  new_apart : (p == cur) ≡ false
  new_apart = ground arith

  same_pml : (created.task cur).pml ≡ (s.task cur).pml
  unfolding k_process_create
  same_pml = rw apart refl

  ready : k_process_make_ready spawned.sched p ≡ some (link_ready spawned.sched p)
  unfolding k_process_create k_process_make_ready k_process_spawn fork_context
  ready = rw (no_null, unlinked) refl

  finished : finish_fork ret p copy created pg ≡ some ((forked.sched.proc p).pid, forked)
  unfolding finish_fork k_process_create
  finished =
      ap (λ (o : Option Sched). o >>= λ z. some ((z.proc p).pid, record spawned { sched = z }))
        ready

  run : k_process_fork ret p mem copy owned s ≡ some ((forked.sched.proc p).pid, forked)
  unfolding k_process_fork
  run =
      ap (λ (o : Option Paging). o >>= finish_fork ret p copy created)
        (ap (λ (a : ℕ). clone_pml a copy s.paging) same_pml ∙ clone)
      ∙ finished

  -- The registers that the child gets
  abbrev regs_of : Bytes → Regs
  regs_of m = record (load_regs m (s.task cur).syscall_state) { rax = 0 }

  module _ (wide : AllWords (words (load_regs s.memory (s.task cur).syscall_state)))
      (other_stack : ((s.task cur).syscall_state + 176 ≤ mem)
        ⊎ (mem + kernel_stack_size ≤ (s.task cur).syscall_state)) where
    kept_regs : regs_of created.memory ≡ regs_of s.memory
    unfolding k_process_create
    kept_regs =
        ap (λ (r : Regs). record r { rax = 0 })
          (load_regs_same s.memory created.memory (s.task cur).syscall_state (λ q low high.
            let outside : (leb mem q && ltb q (mem + kernel_stack_size)) ≡ false =
              ground (arith, other_stack) in
            (memset-within s.memory mem 0 kernel_stack_size).1 q ∙ rw outside refl))

    same_state : (created.task cur).syscall_state ≡ (s.task cur).syscall_state
    unfolding k_process_create
    same_state = rw apart refl

    child_regs :
        record (load_regs created.memory (created.task cur).syscall_state) { rax = 0 }
        ≡ regs_of s.memory
    child_regs =
        ap (λ (a : ℕ). record (load_regs created.memory a) { rax = 0 }) same_state ∙ kept_regs

    state_of : load_regs forked.memory (forked.task p).syscall_state ≡ regs_of s.memory
    unfolding k_process_spawn
    state_of =
        rw (no_null, self, new_apart)
          (fork_context-regs ret p cur copy
              (record created { sched = set_proc created.sched p signals; paging = pg })
              (subst (λ (r : Regs). AllWords (words r)) (sym child_regs) (AllWords-rax _ wide))
            ∙ child_regs)

    paging_of : forked.paging ≡ pg
    unfolding k_process_spawn fork_context
    paging_of = rw no_null refl

    forked-Forked : Forked ret p copy s forked
    unfolding k_process_create k_process_spawn fork_context
    forked-Forked = record {
      process_list = rw no_null refl;
      ready_queue = rw no_null refl;
      pid = rw (self, no_null) refl;
      handler = rw (no_null, self, apart) refl;
      pending = λ j. rw (no_null, self) refl;
      others = λ q ne. let far : (q == p) ≡ false = ground arith in rw (no_null, far) refl;
      tasks = λ q ne ne'.
          let far : (q == p) ≡ false = ground arith in
          let far' : (q == cur) ≡ false = ground arith in rw (no_null, far, far') refl;
      current = rw no_null refl;
      locked = λ q ne. let far : (q == p) ≡ false = ground arith in rw (no_null, far) refl;
      parent = rw (no_null, self) refl;
      parent_task = let own : (cur == cur) ≡ true = ground arith in rw (no_null, apart, own) refl;
      pml = rw (no_null, self, new_apart) refl;
      rip = rw (no_null, self, new_apart) refl;
      rsp = rw (no_null, self, new_apart) refl;
      fds = rw (no_null, self, new_apart) refl;
      mmap = rw (no_null, self, new_apart) refl;
      mmap_start = rw (no_null, self, new_apart) refl;
      name = rw (no_null, self, new_apart) refl;
      no_children = rw (no_null, self, new_apart) refl;
      state = state_of;
    }

-- k_process_fork returns the next pid and leaves the copy and the child as `Forked` says, where the
-- copy of the address space succeeds, the new object is not the current process and not in the ready
-- queue, and the new kernel stack does not overlap the registers of the system call.
pub k_process_fork-Forked :
    (ret p mem copy : ℕ) (owned : Bool) (s : System) (pg : Paging)
    → p ≢ s.sched.current
    → s.sched.current ≢ 0
    → clone_pml (s.task s.sched.current).pml copy s.paging ≡ some pg
    → is_ready s.sched p ≡ false
    → AllWords (words (load_regs s.memory (s.task s.sched.current).syscall_state))
    → ((s.task s.sched.current).syscall_state + 176 ≤ mem)
      ⊎ (mem + kernel_stack_size ≤ (s.task s.sched.current).syscall_state)
    → (s' : System) × (k_process_fork ret p mem copy owned s ≡ some (u64 (s.last_pid + 1), s'))
      × (s'.paging ≡ pg)
      × Forked ret p copy s s'
k_process_fork-Forked ret p mem copy owned s pg new user clone unlinked wide other_stack =
    given (forked-Forked ret p mem copy owned s pg new user clone unlinked wide other_stack) λ f. (
      forked ret p mem copy owned s pg new user clone unlinked,
      run ret p mem copy owned s pg new user clone unlinked
          ∙ ap (λ (n : ℕ). some (n, forked ret p mem copy owned s pg new user clone unlinked))
              f.pid,
      paging_of ret p mem copy owned s pg new user clone unlinked wide other_stack,
      f,
    )
