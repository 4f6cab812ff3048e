-- ===== src/Proc/Tests.antt =====
-- The scheduler with three processes: 100, 200 and the idle process 300.
use wyrm_os.Base.{
  ℕ, Bool, ◌/◌, ◌%◌, ◌≡◌, ◌⊎◌, refl, true, false, some, List, [], ◌∷◌, ◌++◌, ◌==◌, if◌then◌else◌,
  arith, pos, none,
}
use wyrm_os.Proc.Files.{
  Slot, closed, entry, raw, k_process_open_file, k_process_close_file, k_process_get_file,
  k_process_close_file-k_process_open_file,
}
use wyrm_os.Proc.Wait.{k_process_wakeup_queue, k_process_wakeup_queue-WokenUp}
use wyrm_os.Proc.Process.{Process, Sched}
use wyrm_os.Proc.Queues.{k_process_get_ready, alive, k_process_get_ready-alive}
use wyrm_os.Proc.Sleep.{
  k_process_sleep, k_process_update_timings, whos, Sorted, Distinct, Woken,
  k_process_update_timings-Woken,
}
use wyrm_os.Proc.Sleep.Insert.{k_process_sleep-Sorted}

abbrev blank : Process
blank = record {
  pid = 0;
  flags = record { running = false; finished = false; sleeping = false };
  status = 0;
  handler = λ sig. if sig == 16 then 0x4000 else 0;
  pending = λ sig. false;
  sleep_seconds = 0;
  sleep_subseconds = 0;
}

-- 100 wakes up at 5 s and 200 at 7 s; 200 is ready; 400 has finished; 300 is idle and 500 runs.
abbrev state : Sched
state = record {
  proc = λ p.
      if p == 100
      then record blank { pid = 1; sleep_seconds = 5 }
      else if p == 200
      then record blank { pid = 2; sleep_seconds = 7 }
      else if p == 400
      then record blank {
        pid = 4;
        flags = record { running = false; finished = true; sleeping = false };
      }
      else record blank { pid = p };
  process_list = 100 ∷ 200 ∷ 400 ∷ 500 ∷ [];
  ready_queue = 200 ∷ 400 ∷ [];
  sleep_queue = (100, true) ∷ (200, false) ∷ [];
  locked = λ p. p == 100;
  current = 500;
  idle = 300;
}

sorted : Sorted state (whos state.sleep_queue)
sorted = ((refl, tt), (tt, tt))

distinct : Distinct (whos state.sleep_queue)
distinct = ((omega arith, tt), (tt, tt))

k_process_get_ready-alive_example :
    (p : ℕ) × (s' : Sched) × (k_process_get_ready 3 state ≡ some (p, s'))
    × ((s'.proc p).flags.running ≡ true)
    × ((s'.proc p).flags.finished ≡ false)
    × ((alive state state.ready_queue ≡ alive state s'.ready_queue ++ (p ∷ []))
        ⊎ ((alive state state.ready_queue ≡ []) × (s'.ready_queue ≡ []) × (p ≡ 300)))
k_process_get_ready-alive_example = k_process_get_ready-alive 3 state refl (omega arith)

k_process_update_timings-Woken_example :
    Woken state
      (6000000 / 1000000)
      (6000000 % 1000000)
      state.sleep_queue
      (k_process_update_timings state 6000000)
k_process_update_timings-Woken_example =
    k_process_update_timings-Woken state 6000000 distinct sorted

k_process_sleep-Sorted_example :
    (s' : Sched) × (k_process_sleep state 6 0 ≡ s')
    × Sorted s' (whos s'.sleep_queue)
    × Distinct (whos s'.sleep_queue)
    × ((before : List (ℕ × Bool)) × (after : List (ℕ × Bool)) × (own : Bool) × (state.sleep_queue
          ≡ before ++ after)
        × (s'.sleep_queue ≡ before ++ ((500, own) ∷ after)))
    × ((s'.proc 500).sleep_seconds ≡ 6)
    × ((s'.proc 500).sleep_subseconds ≡ 0)
    × ((s'.proc 500).flags.sleeping ≡ true)
k_process_sleep-Sorted_example =
    k_process_sleep-Sorted state 6 0 refl (omega arith, (omega arith, tt)) distinct sorted

-- The files 7, none and 9
abbrev files : List (Slot ℕ)
files = entry (record { id = 0; node = 7; offset = 5 }) ∷ closed ∷ raw 9 ∷ []

k_process_close_file-k_process_open_file_example :
    (shut reopened : List (Slot ℕ)) × (k_process_close_file files 0 ≡ some (pos 0, shut, some 7))
    × (k_process_get_file shut 0 ≡ closed)
    × (k_process_open_file shut 8 ≡ (0, reopened))
    × (k_process_get_file reopened 0 ≡ raw 8)
    × (k_process_close_file reopened 0 ≡ none)
k_process_close_file-k_process_open_file_example =
    k_process_close_file-k_process_open_file files 0 (record { id = 0; node = 7; offset = 5 }) 8
      refl (λ j lt e. absurd (omega arith))

-- 400 has finished and is not ready here; 500 and 100 wake up.
abbrev waiting : Sched
waiting = record state { ready_queue = 200 ∷ [] }

k_process_wakeup_queue-WokenUp_example :
    (s' : Sched) × (k_process_wakeup_queue 4 waiting (500 ∷ 400 ∷ 100 ∷ []) ≡ some s')
    × (s'.ready_queue ≡ 500 ∷ 100 ∷ 200 ∷ [])
k_process_wakeup_queue-WokenUp_example =
    k_process_wakeup_queue-WokenUp 4 waiting (500 ∷ 400 ∷ 100 ∷ []) (omega arith) (omega arith)
      (refl, (refl, (refl, tt)))
