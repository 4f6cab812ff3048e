-- ===== src/Proc/Sleep.antt =====
-- k_process_sleep and k_process_update_timings of kernel/proc/process.c: the sleep queue.
pub mod Insert
use wyrm_os.Base.{
  ℕ, zero, suc, ◌+◌, ◌/◌, ◌%◌, ◌<◌, ◌≤◌, ◌≡◌, ◌≢◌, ◌∙◌, ◌⊎◌, inl, inr, refl, ap, sym, Bool, true,
  false, not, ◌&&◌, ◌||◌, Option, none, some, List, [], ◌∷◌, ◌++◌, ltb, leb, ◌==◌, if◌then◌else◌,
  arith, Bool-cases, given,
}
use wyrm_os.Proc.Process.{Flags, Process, Sched, set_proc, mem, is_ready}
use wyrm_os.Proc.Queues.{link_ready}

-- `_par` wakes up later than the current process.
abbrev pub later : Sched → ℕ → ℕ → Bool
later s par cur =
    ltb (s.proc cur).sleep_seconds (s.proc par).sleep_seconds
    || ((s.proc par).sleep_seconds == (s.proc cur).sleep_seconds
        && ltb (s.proc cur).sleep_subseconds (s.proc par).sleep_subseconds)

-- The search for the node `par` and the insertion behind it. Where there is none the process's own
-- sleep_node is put at the front, elsewhere a new node is allocated; `first` tells which.
pub insert_loop : Sched → (cur : ℕ) → (first : Bool) → List (ℕ × Bool) → List (ℕ × Bool)
insert_loop s cur first [] = (cur, first) ∷ []
insert_loop s cur first (node ∷ nodes) =
    let rest = insert_loop s cur false nodes in
    if later s node.0 cur then (cur, first) ∷ node ∷ nodes else node ∷ rest

-- Whether insert_loop finds no node `par`.
abbrev pub at_front : Sched → ℕ → List (ℕ × Bool) → Bool
at_front s cur [] = true
at_front s cur (node ∷ nodes) = later s node.0 cur

-- The current process with its time, marked as sleeping.
abbrev pub asleep : Sched → (seconds subseconds : ℕ) → Sched
asleep s seconds subseconds = set_proc s s.current (record (s.proc s.current) {
  sleep_seconds = seconds;
  sleep_subseconds = subseconds;
  flags = record { running = false; finished = false; sleeping = true };
})

-- The current process put into the queue.
abbrev pub queued : Sched → Sched
queued s = record s {
  sleep_queue = insert_loop s s.current true s.sleep_queue;
  locked = λ p. if p == s.current then at_front s s.current s.sleep_queue else s.locked p;
}

pub k_process_sleep : Sched → (seconds subseconds : ℕ) → Sched
unfolding insert_loop
k_process_sleep s seconds subseconds =
    if s.locked s.current then s else queued (asleep s seconds subseconds)

-- The process's time has come at `seconds` and `subseconds`.
abbrev pub due : Sched → (seconds subseconds p : ℕ) → Bool
due s seconds subseconds p =
    ltb (s.proc p).sleep_seconds seconds
    || (seconds == (s.proc p).sleep_seconds && leb (s.proc p).sleep_subseconds subseconds)

-- One round of the loop: the process is made ready where it is not, and its node taken off the queue.
abbrev pub wake : Sched → ℕ × Bool → List (ℕ × Bool) → Sched
wake s node nodes =
    let s' = if is_ready s node.0 then s else link_ready s node.0 in
    record s' {
      sleep_queue = nodes;
      locked = λ p. if p == node.0 && node.1 then false else s.locked p;
    }

-- The loop over the nodes of the sleep queue.
pub wake_loop : Sched → (seconds subseconds : ℕ) → List (ℕ × Bool) → Sched
wake_loop s seconds subseconds [] = record s { sleep_queue = [] }
wake_loop s seconds subseconds (node ∷ nodes) =
    let rest = wake_loop (wake s node nodes) seconds subseconds nodes in
    if due s seconds subseconds node.0 then rest else record s { sleep_queue = node ∷ nodes }

abbrev pub subseconds_per_second : ℕ
subseconds_per_second = 1000000

-- `clock_ticks` is arch_get_ticks() / arch_get_cpu_speed().
pub k_process_update_timings : Sched → (clock_ticks : ℕ) → Sched
unfolding wake_loop
k_process_update_timings s clock_ticks =
    wake_loop s (clock_ticks / subseconds_per_second) (clock_ticks % subseconds_per_second)
      s.sleep_queue

-- `p` does not wake up later than `q`.
abbrev pub NotLater : Sched → ℕ → ℕ → Type 0
NotLater s p q = later s p q ≡ false

abbrev pub whos : List (ℕ × Bool) → List ℕ
whos [] = []
whos (node ∷ nodes) = node.0 ∷ whos nodes

abbrev pub All : (ℕ → Type 0) → List ℕ → Type 0
All P [] = Unit {0}
All P (x ∷ xs) = P x × All P xs

-- The processes wake up in the order of the list.
abbrev pub Sorted : Sched → List ℕ → Type 0
Sorted s [] = Unit {0}
Sorted s (p ∷ ps) = All (NotLater s p) ps × Sorted s ps

abbrev pub Distinct : List ℕ → Type 0
Distinct [] = Unit {0}
Distinct (p ∷ ps) = All (λ q. q ≢ p) ps × Distinct ps

map_All : {P Q : ℕ → Type 0} (ps : List ℕ) → ((p : ℕ) → P p → Q p) → All P ps → All Q ps
map_All [] f all = tt
map_All (p ∷ ps) f (here, all) = (f p here, map_All ps f all)

-- What does not come before a process whose time has not come is not due either.
All-due :
    (s : Sched) (seconds subseconds p : ℕ) (ps : List ℕ)
    → due s seconds subseconds p ≡ false
    → All (NotLater s p) ps
    → All (λ q. due s seconds subseconds q ≡ false) ps
All-due s seconds subseconds p ps wait all = map_All ps (λ q le. ground arith) all

-- The processes have the times in `s` that they have in `t`.
abbrev pub SameTime : Sched → Sched → ℕ → Type 0
SameTime s t p =
    ((s.proc p).sleep_seconds ≡ (t.proc p).sleep_seconds)
    × ((s.proc p).sleep_subseconds ≡ (t.proc p).sleep_subseconds)

wake-SameTime :
    (s : Sched) (node : ℕ × Bool) (nodes : List (ℕ × Bool)) (q : ℕ)
    → q ≢ node.0
    → SameTime (wake s node nodes) s q
wake-SameTime s node nodes q ne = elim (Bool-cases (is_ready s node.0)) [
  | inl yes' ↦ rw yes' (refl, refl)
  | inr no' ↦ rw no' (ground arith, ground arith)
]

wake-is_ready :
    (s : Sched) (node : ℕ × Bool) (nodes : List (ℕ × Bool)) (q : ℕ)
    → (q ≡ node.0) ⊎ (is_ready s q ≡ true)
    → is_ready (wake s node nodes) q ≡ true
wake-is_ready s node nodes q here = elim (Bool-cases (is_ready s node.0)) [
  | inl yes' ↦ elim here [ inl e ↦ rw (yes', e) yes' | inr r ↦ rw yes' r ]
  | inr no' ↦ rw no' (ground arith)
]

-- A process that is ready stays ready.
wake_loop-is_ready :
    (s : Sched) (seconds subseconds : ℕ) (nodes : List (ℕ × Bool)) (q : ℕ)
    → is_ready s q ≡ true
    → is_ready (wake_loop s seconds subseconds nodes) q ≡ true
unfolding wake_loop
wake_loop-is_ready s seconds subseconds [] q ready = ready
wake_loop-is_ready s seconds subseconds (node ∷ nodes) q ready =
    elim (Bool-cases (due s seconds subseconds node.0)) [
      | inl yes' ↦ rw yes' (
          wake_loop-is_ready (wake s node nodes) seconds subseconds nodes q
            (wake-is_ready s node nodes q (inr ready)))
      | inr no' ↦ rw no' ready
    ]

-- What the loop over the nodes should do: nodes of processes that are due are gone from the front,
-- those processes are ready, and no process of the nodes left is due.
abbrev pub Woken : Sched → (seconds subseconds : ℕ) → List (ℕ × Bool) → Sched → Type 0
Woken s seconds subseconds nodes s' =
    (woken : List (ℕ × Bool)) × (nodes ≡ woken ++ s'.sleep_queue)
    × All (λ q. (due s seconds subseconds q ≡ true) × (is_ready s' q ≡ true)) (whos woken)
    × All (λ q. due s seconds subseconds q ≡ false) (whos s'.sleep_queue)

module _ (seconds subseconds : ℕ) (t : Sched) where
  due-SameTime :
      (s : Sched) (p : ℕ) → SameTime s t p → due s seconds subseconds p ≡ due t seconds subseconds p
  due-SameTime s p (e, e') = rw (e, e') refl

  wake_loop-Woken :
      (nodes : List (ℕ × Bool)) (s : Sched)
      → All (SameTime s t) (whos nodes)
      → Distinct (whos nodes)
      → Sorted t (whos nodes)
      → Woken t seconds subseconds nodes (wake_loop s seconds subseconds nodes)
  unfolding wake_loop
  wake_loop-Woken [] s same apart sorted = ([], refl, tt, tt)
  wake_loop-Woken (node ∷ nodes) s (here, same) (other, apart) (first, sorted) =
      given (due-SameTime s node.0 here) λ test.
        elim (Bool-cases (due s seconds subseconds node.0)) [
          | inr no' ↦
              let wait : due t seconds subseconds node.0 ≡ false = sym test ∙ no' in
              rw no'
                ([], refl, tt, (wait, All-due t seconds subseconds node.0 (whos nodes) wait first))
          | inl yes' ↦
              given
                (wake_loop-Woken nodes (wake s node nodes) (kept s node nodes same other) apart
                  sorted)
                λ (woken, e, all, rest). rw yes' (
                  node ∷ woken,
                  ap (λ (l : List (ℕ × Bool)). node ∷ l) e,
                  (
                    (
                      sym test ∙ yes',
                      wake_loop-is_ready (wake s node nodes) seconds subseconds nodes node.0
                          (wake-is_ready s node nodes node.0 (inl refl)),
                    ),
                    all,
                  ),
                  rest,
                )
        ]
    where
      both :
          (s : Sched) (node : ℕ × Bool) (l : List (ℕ × Bool)) (ps : List ℕ)
          → All (SameTime s t) ps
          → All (λ q. q ≢ node.0) ps
          → All (SameTime (wake s node l) t) ps
      both s node l [] same other = tt
      both s node l (p ∷ ps) ((e, e'), same) (ne, other) =
          let (w, w') = wake-SameTime s node l p ne in
          ((w ∙ e, w' ∙ e'), both s node l ps same other)

      kept :
          (s : Sched) (node : ℕ × Bool) (l : List (ℕ × Bool))
          → All (SameTime s t) (whos l)
          → All (λ q. q ≢ node.0) (whos l)
          → All (SameTime (wake s node l) t) (whos l)
      kept s node l same other = both s node l (whos l) same other

SameTime-refl : (s : Sched) (ps : List ℕ) → All (SameTime s s) ps
SameTime-refl s [] = tt
SameTime-refl s (p ∷ ps) = ((refl, refl), SameTime-refl s ps)

-- k_process_update_timings takes exactly the processes whose time has come off the sleep queue and
-- makes them ready, where the queue is sorted by time and no process is in it twice.
pub k_process_update_timings-Woken :
    (s : Sched) (clock_ticks : ℕ)
    → Distinct (whos s.sleep_queue)
    → Sorted s (whos s.sleep_queue)
    → Woken s
        (clock_ticks / subseconds_per_second)
        (clock_ticks % subseconds_per_second)
        s.sleep_queue
        (k_process_update_timings s clock_ticks)
unfolding k_process_update_timings
k_process_update_timings-Woken s clock_ticks apart sorted =
    wake_loop-Woken (clock_ticks / subseconds_per_second) (clock_ticks % subseconds_per_second) s
      s.sleep_queue s (SameTime-refl s (whos s.sleep_queue)) apart sorted
