-- ===== src/Proc/Invoke/Tests.antt =====
-- A process with three signals: SIGINT does nothing, SIGUSR1 has a handler and SIGUSR2 waits for it.
use wyrm_os.Base.{
  ℕ, ◌≡◌, inl, inr, refl, true, false, ◌||◌, some, [], ◌∷◌, leb, ◌==◌, if◌then◌else◌, arith,
  Bool-cases,
}
use wyrm_os.Proc.Process.{Process, Sched}
use wyrm_os.Proc.Invoke.{
  Outcome, k_process_invoke_signals, entered, first_pending, some_bit, k_process_handle_signal,
}
use wyrm_os.Proc.Invoke.Handled.{Known, Handled}
use wyrm_os.Proc.Invoke.Rounds.{k_process_invoke_signals-Handled}

abbrev blank : Process
blank = record {
  pid = 5;
  flags = record { running = true; finished = false; sleeping = false };
  status = 0;
  handler = λ sig. if leb 16 sig then 0x4000 else 0;
  pending = λ sig. (sig == 2) || leb 16 sig;
  sleep_seconds = 0;
  sleep_subseconds = 0;
}

abbrev state : Sched
state = record {
  proc = λ p. blank;
  process_list = 500 ∷ [];
  ready_queue = 200 ∷ [];
  sleep_queue = [];
  locked = λ p. false;
  current = 500;
  idle = 300;
}

known : (j : ℕ) → (blank.pending j ≡ true) → Known blank j
known j set = elim (Bool-cases (leb 16 j)) [
  | inl high ↦ rw high (inl (omega arith))
  | inr low ↦ let e : j ≡ 2 = ground arith in rw e (inr (inr refl))
]

k_process_invoke_signals-Handled_example :
    (o : Outcome) × (k_process_invoke_signals 20 2 state ≡ some o) × Handled 500 state o
k_process_invoke_signals-Handled_example =
    k_process_invoke_signals-Handled 20 2 state (omega arith) (record {
      awake = refl;
      known = λ j lt. known j;
      apart = omega arith;
      lazy = refl;
      few = omega arith;
    })

-- The handler is entered.
invoke_signals_lem :
    (s : Sched) × (k_process_invoke_signals 20 2 state ≡ some (entered 0x4000 16 s))
unfolding k_process_invoke_signals k_process_handle_signal first_pending some_bit
invoke_signals_lem = (_, refl)
