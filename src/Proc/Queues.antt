-- ===== src/Proc/Queues.antt =====
-- The ready queue and signals of kernel/proc/process.c.
pub mod Exit
use wyrm_os.Base.{
  ℕ, zero, suc, ◌<◌, ◌≡◌, ◌∙◌, ◌⊎◌, inl, inr, refl, ap, Bool, true, false, Option, none, some, List,
  [], ◌∷◌, ◌++◌, length, ◌==◌, if◌then◌else◌, arith, Bool-cases, given,
}
use wyrm_os.Base.Fail.{◌>>=◌}
use wyrm_os.Proc.Process.{Sched, set_proc, set_flags, is_ready}

-- What `list_pop_back` leaves of a queue, and the process of the node that it returns.
unfoldable pub pop_back : List ℕ → Option (List ℕ × ℕ)
pop_back [] = none
pop_back (x ∷ []) = some ([], x)
pop_back (x ∷ y ∷ xs) = do (init, last) ← pop_back (y ∷ xs); some (x ∷ init, last)

-- The loop of k_process_get_ready, `k` rounds at most, on the ready queue `q`: what is left of the
-- queue and the process found. An idle process that is finished would make it go on for ever.
pub ready_loop : ℕ → Sched → List ℕ → Option (List ℕ × ℕ)
unfolding pop_back
ready_loop zero s q = none
ready_loop (suc k) s q = elim (pop_back q) [
  | none ↦ if (s.proc s.idle).flags.finished then ready_loop k s [] else some ([], s.idle)
  | some (q', p) ↦ if (s.proc p).flags.finished then ready_loop k s q' else some (q', p)
]

pub k_process_get_ready : ℕ → Sched → Option (ℕ × Sched)
unfolding ready_loop
k_process_get_ready k s = do
  (q, p) ← ready_loop k s s.ready_queue
  some (p, set_flags (record s { ready_queue = q }) p (record (s.proc p).flags { running = true }))

-- The body of k_process_make_ready.
abbrev pub link_ready : Sched → ℕ → Sched
link_ready s p =
    record (set_proc s p (record (s.proc p) { sleep_seconds = 0; sleep_subseconds = 0 })) {
      ready_queue = p ∷ s.ready_queue;
    }

-- `none` where the process's ready_node is in the queue already: linking it again breaks the queue.
unfoldable pub k_process_make_ready : Sched → ℕ → Option Sched
k_process_make_ready s p = if is_ready s p then none else some (link_ready s p)

-- The context switch itself is not modelled: the new current process goes on.
pub k_process_schedule_next : ℕ → Sched → Option Sched
unfolding k_process_get_ready
k_process_schedule_next k s = do (p, s') ← k_process_get_ready k s; some (record s' { current = p })

-- `reschedule` is the flag SWITCH_RESCHEDULE.
pub k_process_switch : ℕ → Sched → (reschedule : Bool) → Option Sched
unfolding k_process_schedule_next k_process_make_ready
k_process_switch k s reschedule =
    if s.current == s.idle
    then k_process_schedule_next k s
    else if (s.proc s.current).flags.finished
    then k_process_schedule_next k s
    else if reschedule
    then (do s' ← k_process_make_ready s s.current; k_process_schedule_next k s')
    else k_process_schedule_next k s

pub k_process_exit : ℕ → Sched → (code : ℕ) → Option Sched
unfolding k_process_schedule_next
k_process_exit k s code =
    let p = record (s.proc s.current) {
      flags = record { running = false; finished = true; sleeping = false };
      status = code;
    } in
    k_process_schedule_next k (set_proc s s.current p)

-- Which processes of a queue are not finished.
abbrev pub alive : Sched → List ℕ → List ℕ
alive s [] = []
alive s (p ∷ ps) = if (s.proc p).flags.finished then alive s ps else p ∷ alive s ps

pub pop_back-append : (q : List ℕ) (p : ℕ) → pop_back (q ++ (p ∷ [])) ≡ some (q, p)
unfolding pop_back
pop_back-append [] p = refl
pop_back-append (x ∷ []) p = refl
pop_back-append (x ∷ y ∷ q) p = rw (pop_back-append (y ∷ q) p) refl

-- A queue is empty or has a last process.
abbrev Snoc : List ℕ → Type 0
Snoc q =
    (q ≡ [])
    ⊎ ((init : List ℕ) × (last : ℕ) × (q ≡ init ++ (last ∷ [])) × (length q ≡ suc (length init)))

snoc : (q : List ℕ) → Snoc q
snoc [] = inl refl
snoc (x ∷ q) = elim (snoc q) [
  | inl e ↦ inr ([], x, ap (λ (t : List ℕ). x ∷ t) e, rw e refl)
  | inr (init, last, e, len) ↦ inr (x ∷ init, last, ap (λ (t : List ℕ). x ∷ t) e, ap suc len)
]

alive-append :
    (s : Sched) (q : List ℕ) (p : ℕ) → alive s (q ++ (p ∷ [])) ≡ alive s q ++ alive s (p ∷ [])
alive-append s [] p = refl
alive-append s (x ∷ q) p = elim (Bool-cases (s.proc x).flags.finished) [
  | inl yes' ↦ rw yes' (alive-append s q p)
  | inr no' ↦ rw no' (ap (λ (t : List ℕ). x ∷ t) (alive-append s q p))
]

append-nil : (xs : List ℕ) → xs ++ [] ≡ xs
append-nil [] = refl
append-nil (x ∷ xs) = ap (λ (t : List ℕ). x ∷ t) (append-nil xs)

-- What the loop finds: the last process that is alive, with the ones before it left in the queue, or
-- the idle process where none is.
abbrev Found : Sched → List ℕ → List ℕ → ℕ → Type 0
Found s q q' p =
    ((s.proc p).flags.finished ≡ false)
    × ((alive s q ≡ alive s q' ++ (p ∷ [])) ⊎ ((alive s q ≡ []) × (q' ≡ []) × (p ≡ s.idle)))

ready_loop-empty :
    (k : ℕ) (s : Sched)
    → (s.proc s.idle).flags.finished ≡ false
    → ready_loop (suc k) s [] ≡ some ([], s.idle)
unfolding ready_loop pop_back
ready_loop-empty k s lazy = rw lazy refl

ready_loop-append :
    (k : ℕ) (s : Sched) (init : List ℕ) (last : ℕ)
    → ready_loop (suc k) s (init ++ (last ∷ []))
      ≡ (if (s.proc last).flags.finished then ready_loop k s init else some (init, last))
unfolding ready_loop
ready_loop-append k s init last = rw (ready_loop, pop_back-append init last) refl

ready_loop-Found :
    (k : ℕ) (s : Sched) (q : List ℕ)
    → (s.proc s.idle).flags.finished ≡ false
    → length q < k
    → (q' : List ℕ) × (p : ℕ) × (ready_loop k s q ≡ some (q', p)) × Found s q q' p
ready_loop-Found zero s q lazy lt = absurd (omega arith)
ready_loop-Found (suc k) s q lazy lt = elim (snoc q) [
  | inl e ↦ rw e ([], s.idle, ready_loop-empty k s lazy, (lazy, inr (refl, refl, refl)))
  | inr (init, last, e, len) ↦
      let step = ready_loop-append k s init last in
      let split = alive-append s init last in
      elim (Bool-cases (s.proc last).flags.finished) [
        | inr live ↦ rw e (init, last, rw live at step, (live, inl (rw live at split)))
        | inl dead ↦
            let (q', p, run, found) = ready_loop-Found k s init lazy (omega arith) in
            let same : alive s (init ++ (last ∷ [])) ≡ alive s init =
              (rw dead at split) ∙ append-nil (alive s init) in
            rw (e, same) (q', p, (rw dead at step) ∙ run, found)
      ]
]

-- k_process_get_ready completes within one round more than there are processes in the queue, where
-- the idle process is not finished. It returns the process that has been in the queue the longest
-- and is not finished, leaves the younger ones that are not finished in order, and drops finished
-- processes older than the one found; where all are finished it returns the idle process. The process is not
-- finished and is marked as running.
pub k_process_get_ready-alive :
    (k : ℕ) (s : Sched)
    → (s.proc s.idle).flags.finished ≡ false
    → length s.ready_queue < k
    → (p : ℕ) × (s' : Sched) × (k_process_get_ready k s ≡ some (p, s'))
      × ((s'.proc p).flags.running ≡ true)
      × ((s'.proc p).flags.finished ≡ false)
      × ((alive s s.ready_queue ≡ alive s s'.ready_queue ++ (p ∷ []))
          ⊎ ((alive s s.ready_queue ≡ []) × (s'.ready_queue ≡ []) × (p ≡ s.idle)))
unfolding k_process_get_ready
k_process_get_ready-alive k s lazy lt =
    given (ready_loop-Found k s s.ready_queue lazy lt) λ (q, p, run, (live, found)). (
      p,
      set_flags (record s { ready_queue = q }) p (record (s.proc p).flags { running = true }),
      rw run refl,
      ground arith,
      ground arith,
      found,
    )
