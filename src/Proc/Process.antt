-- ===== src/Proc/Process.antt =====
-- The process objects and queues of kernel/proc/process.c, on one core. A process is named by the
-- address of its object, and a queue is the list of the processes whose nodes are in it, from the
-- head to the tail. The locks are held through each function, so that a call is one step.
use wyrm_os.Base.{ℕ, Bool, true, false, List, [], ◌∷◌, ◌==◌, if◌then◌else◌}

-- PROCESS_RUNNING, PROCESS_FINISHED and PROCESS_SLEEPING of `flags`
pub record Flags : Type 0 where
  pub running : Bool
  pub finished : Bool
  pub sleeping : Bool

-- The fields of `process` that the functions below use; `handler` has those of `signals`.
pub record Process : Type 0 where
  pub pid : ℕ
  pub flags : Flags
  pub status : ℕ
  pub handler : ℕ → ℕ
  pub pending : ℕ → Bool
  pub sleep_seconds : ℕ
  pub sleep_subseconds : ℕ

-- The objects, `__process_list`, `__ready_queue`, `__sleep_queue`, and the core's current and idle
-- process. A node of the sleep queue is its process and whether it is the process's own sleep_node;
-- `locked` tells whether a process's sleep_node is in a queue.
pub record Sched : Type 0 where
  pub proc : ℕ → Process
  pub process_list : List ℕ
  pub ready_queue : List ℕ
  pub sleep_queue : List (ℕ × Bool)
  pub locked : ℕ → Bool
  pub current : ℕ
  pub idle : ℕ

abbrev pub set_proc : Sched → ℕ → Process → Sched
set_proc s p x = record s { proc = λ q. if q == p then x else s.proc q }

abbrev pub set_flags : Sched → ℕ → Flags → Sched
set_flags s p f = set_proc s p (record (s.proc p) { flags = f })

abbrev pub mem : ℕ → List ℕ → Bool
mem p [] = false
mem p (q ∷ qs) = if p == q then true else mem p qs

-- `is_ready(p)`: the ready_node has an owner
abbrev pub is_ready : Sched → ℕ → Bool
is_ready s p = mem p s.ready_queue
