-- ===== src/Proc/Queues/Exit.antt =====
-- What k_process_exit leaves.
use wyrm_os.Base.{
  ℕ, ◌<◌, ◌≡◌, ◌≢◌, refl, true, false, some, length, ◌==◌, arith, given, Bool-cases, inl, inr,
}
use wyrm_os.Proc.Process.{Process, Sched, set_proc, set_flags}
use wyrm_os.Proc.Queues.{
  k_process_get_ready, k_process_schedule_next, k_process_exit, ready_loop-Found,
}

-- The process `c` has finished with the status `code`, and another one goes on.
abbrev pub Ended : (c code : ℕ) → Sched → Type 0
Ended c code s =
    ((s.proc c).status ≡ code)
    × ((s.proc c).flags.finished ≡ true)
    × ((s.proc s.current).flags.finished ≡ false)

-- k_process_exit finds a process that goes on.
pub k_process_exit-Ended :
    (k : ℕ) (s : Sched) (code : ℕ)
    → s.idle ≢ s.current
    → (s.proc s.idle).flags.finished ≡ false
    → length s.ready_queue < k
    → (s' : Sched) × (k_process_exit k s code ≡ some s') × Ended s.current code s'
unfolding k_process_exit k_process_schedule_next k_process_get_ready
k_process_exit-Ended k s code ne lazy few =
    let p : Process = record (s.proc s.current) {
      flags = record { running = false; finished = true; sleeping = false };
      status = code;
    } in
    let s1 : Sched = set_proc s s.current p in
    let other : (s.idle == s.current) ≡ false = ground arith in
    let self : (s.current == s.current) ≡ true = ground arith in
    given (ready_loop-Found k s1 s.ready_queue (rw other lazy) few) λ (q, p', run, (live, found)).
      elim (Bool-cases (s.current == p')) [
        | inl same ↦
            let gone : (p' == s.current) ≡ true = ground arith in absurd (cc (rw gone at live))
        | inr apart ↦
            let chosen : (p' == p') ≡ true = ground arith in
            (
              record (set_flags (record s1 { ready_queue = q }) p'
                  (record (s1.proc p').flags { running = true })) { current = p' },
              rw run refl,
              (rw (apart, self) refl, rw (apart, self) refl, rw chosen live),
            )
      ]
