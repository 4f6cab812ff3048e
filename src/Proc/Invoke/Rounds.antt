-- ===== src/Proc/Invoke/Rounds.antt =====
-- The jumps back to the start of k_process_invoke_signals.
use wyrm_os.Base.{
  ℕ, zero, suc, ◌+◌, ◌*◌, ◌<◌, ◌≤◌, ◌≡◌, ◌≢◌, ◌∙◌, inl, inr, refl, sym, ap, true, false, not,
  Option, none, some, length, leb, ◌==◌, arith, Bool-cases, given,
}
use wyrm_os.Proc.Process.{Sched}
use wyrm_os.Proc.Queues.Exit.{k_process_exit-Ended}
use wyrm_os.Proc.Signals.{nsig, signal_defaults}
use wyrm_os.Proc.Invoke.{
  Outcome, back, exited, entered, some_bit, clear_sig_pending, first_pending,
  k_process_handle_signal, k_process_invoke_signals,
}
use wyrm_os.Proc.Invoke.Lowest.{some_bit-none, Lowest, nothing, lowest, first_pending-Lowest}
use wyrm_os.Proc.Invoke.Handled.{
  Ignored, Known, Consumed, nothing_before, clear_sig_pending-Consumed, Handled, none_acts, enters,
  ends, Handled-ignored, handle_entered, handle_nothing, handle_ended,
}

-- The current process `c` has not finished, the defaults of its signals are known where no handler is
-- set, and another process can go on, which is found within `k` rounds.
pub record Steady (k c : ℕ) (s : Sched) : Type 0 where
  pub awake : (s.proc c).flags.finished ≡ false
  pub known : (j : ℕ) → j < nsig → (s.proc c).pending j ≡ true → Known (s.proc c) j
  pub apart : s.idle ≢ c
  pub lazy : (s.proc s.idle).flags.finished ≡ false
  pub few : length s.ready_queue < k

Steady-clear :
    (k : ℕ) (s : Sched) (sig : ℕ)
    → Steady k s.current s
    → Steady k s.current (clear_sig_pending s s.current sig)
Steady-clear k s sig f =
    let self : (s.current == s.current) ≡ true = ground arith in
    let other : (s.idle == s.current) ≡ false = ground (arith, f.apart) in
    record {
      awake = rw self f.awake;
      known = λ j lt set. elim (Bool-cases (j == sig)) [
        | inl here ↦ absurd (cc (rw (self, here) at set))
        | inr there ↦ rw self (f.known j lt (rw (self, there) at set))
      ];
      apart = f.apart;
      lazy = rw other f.lazy;
      few = f.few;
    }

-- What a round comes to where `sig` is the lowest signal that is pending
abbrev Done : (rounds k : ℕ) → Sched → Type 0
Done rounds k s =
    (o : Outcome) × (k_process_invoke_signals rounds k s ≡ some o) × Handled s.current s o

round_none :
    (rounds k : ℕ) (s : Sched)
    → first_pending nsig 0 (s.proc s.current).pending ≡ none
    → ((j : ℕ) → j < nsig → (s.proc s.current).pending j ≡ false)
    → Done (suc rounds) k s
unfolding k_process_invoke_signals
round_none rounds k s e clear = (
  back true s,
  rw (k_process_invoke_signals, e) refl,
  none_acts s (λ j lt set. absurd (cc (clear j lt, set)))
      (record {
        current = refl;
        idle = refl;
        ready_queue = refl;
        others = λ q ne. refl;
        flags = refl;
        handler = refl;
        cleared = clear;
        kept = λ j h. refl;
      }),
)

module _ (rounds k : ℕ) (s : Sched) (sig : ℕ)
    (e : first_pending nsig 0 (s.proc s.current).pending ≡ some sig) (small : sig < nsig)
    (set : (s.proc s.current).pending sig ≡ true)
    (low : (j : ℕ) → j < sig → (s.proc s.current).pending j ≡ false)
    (steady : Steady k s.current s) where
  abbrev s1 : Sched
  s1 = clear_sig_pending s s.current sig

  step : Consumed s.current (suc sig) s s1
  step = clear_sig_pending-Consumed s s.current sig low

  steady1 : Steady k s.current s1
  steady1 = Steady-clear k s sig steady

  same_handler : (s1.proc s.current).handler sig ≡ (s.proc s.current).handler sig
  same_handler = ap (λ (f : ℕ → ℕ). f sig) step.handler

  none_before :
      (j : ℕ) → j < sig → (s.proc s.current).pending j ≡ true → Ignored (s.proc s.current) j
  none_before j lt on = absurd (cc (low j lt, on))

  round_enters : (s.proc s.current).handler sig ≢ 0 → Done (suc rounds) k s
  unfolding k_process_invoke_signals
  round_enters ne = (
    entered ((s.proc s.current).handler sig) sig s1,
    rw
        (
          k_process_invoke_signals,
          e,
          handle_entered k s1 sig steady1.awake (λ z. ne (sym same_handler ∙ z)),
        )
        (ap (λ (h : ℕ). some (entered h sig s1)) same_handler),
    enters sig s1 set none_before ne step,
  )

  round_ends :
      (s.proc s.current).handler sig ≡ 0 → signal_defaults sig ≡ some true → Done (suc rounds) k s
  unfolding k_process_invoke_signals
  round_ends z d =
      given (k_process_exit-Ended k s1 ((128 + sig) * 256) steady1.apart steady1.lazy steady1.few)
        λ (s', x, ended). (
          exited ((128 + sig) * 256) s',
          rw
              (
                k_process_invoke_signals,
                e,
                handle_ended k s1 sig steady1.awake (same_handler ∙ z) d s' x,
              )
              refl,
          ends sig s' set none_before z d ended,
        )

  round_ignored :
      (s.proc s.current).handler sig ≡ 0
      → signal_defaults sig ≡ some false
      → Done rounds k s1
      → Done (suc rounds) k s
  unfolding k_process_invoke_signals
  round_ignored z d (o, run, h) =
      let all : k_process_handle_signal k s1 sig
          ≡ some (back (not (some_bit 64 0 (s1.proc s.current).pending)) s1) =
        handle_nothing k s1 sig steady1.awake (same_handler ∙ z, d) in
      elim (Bool-cases (some_bit 64 0 (s1.proc s.current).pending)) [
        | inl more ↦ (
          o,
          rw (k_process_invoke_signals, e, all, more) run,
          Handled-ignored s.current sig s s1 low (z, d) step small o h,
        )
        | inr empty ↦ (
          back true s1,
          rw (k_process_invoke_signals, e, all, empty) refl,
          none_acts s1
              (nothing_before s.current sig s s1 low (z, d) step nsig
                (λ j lt on. absurd (
                  cc (
                    some_bit-none 64 0 j (s1.proc s.current).pending empty (omega arith)
                        (omega arith),
                    on,
                  ))))
              (record {
                current = refl;
                idle = refl;
                ready_queue = refl;
                others = step.others;
                flags = step.flags;
                handler = step.handler;
                cleared = λ j lt.
                    some_bit-none 64 0 j (s1.proc s.current).pending empty (omega arith)
                      (omega arith);
                kept = λ j h. step.kept j (omega arith);
              }),
        )
      ]

-- From where the signals below `low` are not pending
invoke_signals_from :
    (rounds k low : ℕ) (s : Sched)
    → low ≤ nsig
    → nsig < rounds + low
    → ((j : ℕ) → j < low → (s.proc s.current).pending j ≡ false)
    → Steady k s.current s
    → Done rounds k s
invoke_signals_from zero k low s top enough clear steady = absurd (omega arith)
invoke_signals_from (suc rounds) k low s top enough clear steady =
    go
      (λ low' s' top' enough' clear' steady'.
        invoke_signals_from rounds k low' s' top' enough' clear' steady')
      (first_pending nsig 0 (s.proc s.current).pending) refl
      (first_pending-Lowest nsig 0 (s.proc s.current).pending (omega arith))
  where
    passed : (sig : ℕ) → (s.proc s.current).pending sig ≡ true → low ≤ sig
    passed sig set = elim (Bool-cases (leb low sig)) [
      | inl le ↦ ground arith
      | inr lt ↦ absurd (cc (clear sig (ground arith), set))
    ]

    go :
        ((low' : ℕ) (s' : Sched)
          → low' ≤ nsig
          → nsig < rounds + low'
          → ((j : ℕ) → j < low' → (s'.proc s'.current).pending j ≡ false)
          → Steady k s'.current s'
          → Done rounds k s')
        → (o : Option ℕ) → first_pending nsig 0 (s.proc s.current).pending ≡ o
        → Lowest 0 nsig (s.proc s.current).pending o
        → Done (suc rounds) k s
    go rec none e (nothing h) = round_none rounds k s e (λ j lt. h j (omega arith) lt)
    go rec (some _) e (lowest sig _ small set h) =
        let low_all : (j : ℕ) → j < sig → (s.proc s.current).pending j ≡ false =
          λ j lt. h j (omega arith) lt in
        elim (Bool-cases ((s.proc s.current).handler sig == 0)) [
          | inr ne ↦ round_enters rounds k s sig e small set low_all steady (λ z. ground arith)
          | inl z ↦ elim (steady.known sig small set) [
            | inl ne ↦ absurd (ground arith)
            | inr (inl d) ↦ round_ends rounds k s sig e small set low_all steady (ground arith) d
            | inr (inr d) ↦
                round_ignored rounds k s sig e small set low_all steady (ground arith) d (
                  rec (suc sig) (clear_sig_pending s s.current sig) (omega arith)
                    (omega (arith, passed sig set))
                    (clear_sig_pending-Consumed s s.current sig low_all).cleared
                    (Steady-clear k s sig steady))
          ]
        ]

-- k_process_invoke_signals ends within 20 rounds, where another process can go on and the default of
-- each pending signal without a handler is known: the lowest pending signal that has a handler, or
-- whose default ends the process, is the one that is entered or ends it, the ones below it are dropped,
-- and those above it are still pending; where there is none, no signal is pending any more.
pub k_process_invoke_signals-Handled :
    (rounds k : ℕ) (s : Sched)
    → nsig < rounds
    → Steady k s.current s
    → (o : Outcome) × (k_process_invoke_signals rounds k s ≡ some o) × Handled s.current s o
k_process_invoke_signals-Handled rounds k s enough steady =
    invoke_signals_from rounds k 0 s (omega arith) (omega arith) (λ j lt. absurd (omega arith))
      steady
