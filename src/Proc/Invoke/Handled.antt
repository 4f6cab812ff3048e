-- ===== src/Proc/Invoke/Handled.antt =====
-- What becomes of the signals that are pending.
use wyrm_os.Base.{
  ℕ, suc, ◌+◌, ◌*◌, ◌<◌, ◌≤◌, ◌≡◌, ◌≢◌, ◌∙◌, ◌⊎◌, inl, inr, refl, sym, ap, true, false, not, some,
  leb, ◌==◌, arith, Bool-cases,
}
use mathlib.Core.Path.{subst}
use wyrm_os.Proc.Process.{Process, Sched}
use wyrm_os.Proc.Queues.{k_process_exit}
use wyrm_os.Proc.Queues.Exit.{Ended}
use wyrm_os.Proc.Signals.{nsig, signal_defaults}
use wyrm_os.Proc.Invoke.{
  Outcome, back, exited, entered, some_bit, clear_sig_pending, k_process_handle_signal,
}

-- Nothing happens on a signal.
abbrev pub Ignored : Process → ℕ → Type 0
Ignored p sig = (p.handler sig ≡ 0) × (signal_defaults sig ≡ some false)

-- The default of a signal without handler is in the table.
abbrev pub Known : Process → ℕ → Type 0
Known p sig =
    (p.handler sig ≢ 0) ⊎ (signal_defaults sig ≡ some true) ⊎ (signal_defaults sig ≡ some false)

-- The signals below `n` are no longer pending for the process `c`, and nothing else changes.
pub record Consumed (c n : ℕ) (s s' : Sched) : Type 0 where
  pub current : s'.current ≡ s.current
  pub idle : s'.idle ≡ s.idle
  pub ready_queue : s'.ready_queue ≡ s.ready_queue
  pub others : (q : ℕ) → q ≢ c → s'.proc q ≡ s.proc q
  pub flags : (s'.proc c).flags ≡ (s.proc c).flags
  pub handler : (s'.proc c).handler ≡ (s.proc c).handler
  pub cleared : (j : ℕ) → j < n → (s'.proc c).pending j ≡ false
  pub kept : (j : ℕ) → n ≤ j → (s'.proc c).pending j ≡ (s.proc c).pending j

pub Consumed-trans :
    {a b c : ℕ} {s s' s'' : Sched}
    → a ≤ b
    → Consumed c a s s'
    → Consumed c b s' s''
    → Consumed c b s s''
Consumed-trans le f g = record {
  current = g.current ∙ f.current;
  idle = g.idle ∙ f.idle;
  ready_queue = g.ready_queue ∙ f.ready_queue;
  others = λ q ne. g.others q ne ∙ f.others q ne;
  flags = g.flags ∙ f.flags;
  handler = g.handler ∙ f.handler;
  cleared = g.cleared;
  kept = λ j h. g.kept j h ∙ f.kept j (omega arith);
}

-- Where no signal below `sig` is pending
pub clear_sig_pending-Consumed :
    (s : Sched) (c sig : ℕ)
    → ((j : ℕ) → j < sig → (s.proc c).pending j ≡ false)
    → Consumed c (suc sig) s (clear_sig_pending s c sig)
clear_sig_pending-Consumed s c sig below = record {
  current = refl;
  idle = refl;
  ready_queue = refl;
  others = λ q ne. let no' : (q == c) ≡ false = ground arith in rw no' refl;
  flags = rw self refl;
  handler = rw self refl;
  cleared = λ j h. elim (Bool-cases (j == sig)) [
    | inl here ↦ rw (self, here) refl
    | inr there ↦ rw (self, there) (below j (ground arith))
  ];
  kept = λ j h. let there : (j == sig) ≡ false = ground arith in rw (self, there) refl;
}
  where
    self : (c == c) ≡ true
    self = ground arith

-- What k_process_invoke_signals comes to for the current process `c`: no signal that is pending does
-- anything, and none is pending any more; or the lowest one that does something has a handler, which
-- is entered, or has none, and the process is ended. The signals up to that one are no longer pending.
pub data Handled (c : ℕ) (s : Sched) : Outcome → Type 0 where
  none_acts :
      (s' : Sched)
      → ((j : ℕ) → j < nsig → (s.proc c).pending j ≡ true → Ignored (s.proc c) j)
      → Consumed c nsig s s'
      → Handled c s (back true s')
  enters :
      (sig : ℕ) (s' : Sched)
      → (s.proc c).pending sig ≡ true
      → ((j : ℕ) → j < sig → (s.proc c).pending j ≡ true → Ignored (s.proc c) j)
      → (s.proc c).handler sig ≢ 0
      → Consumed c (suc sig) s s'
      → Handled c s (entered ((s.proc c).handler sig) sig s')
  ends :
      (sig : ℕ) (s' : Sched)
      → (s.proc c).pending sig ≡ true
      → ((j : ℕ) → j < sig → (s.proc c).pending j ≡ true → Ignored (s.proc c) j)
      → (s.proc c).handler sig ≡ 0
      → signal_defaults sig ≡ some true
      → Ended c ((128 + sig) * 256) s'
      → Handled c s (exited ((128 + sig) * 256) s')

-- A signal on which nothing happens is the lowest, and no longer pending in `s1`.
module _ (c sig : ℕ) (s s1 : Sched) (low : (j : ℕ) → j < sig → (s.proc c).pending j ≡ false)
    (ignored : Ignored (s.proc c) sig) (step : Consumed c (suc sig) s s1) where
  same_handler : (j : ℕ) → (s1.proc c).handler j ≡ (s.proc c).handler j
  same_handler j = ap (λ (f : ℕ → ℕ). f j) step.handler

  pub nothing_before :
      (b : ℕ)
      → ((j : ℕ) → j < b → (s1.proc c).pending j ≡ true → Ignored (s1.proc c) j)
      → (j : ℕ) → j < b
      → (s.proc c).pending j ≡ true
      → Ignored (s.proc c) j
  nothing_before b h j lt set = elim (Bool-cases (leb j sig)) [
    | inr after ↦
        let (e, d) = h j lt (step.kept j (ground arith) ∙ set) in (sym (same_handler j) ∙ e, d)
    | inl upto ↦ elim (Bool-cases (j == sig)) [
      | inl here ↦ subst (λ (z : ℕ). Ignored (s.proc c) z) (ground arith) ignored
      | inr there ↦ absurd (cc (low j (ground arith), set))
    ]
  ]

  later : (j : ℕ) → (s1.proc c).pending j ≡ true → suc sig ≤ j
  later j set = elim (Bool-cases (leb j sig)) [
    | inr after ↦ ground arith
    | inl upto ↦ absurd (cc (step.cleared j (ground arith), set))
  ]

  pub Handled-ignored : sig < nsig → (o : Outcome) → Handled c s1 o → Handled c s o
  Handled-ignored small o (none_acts s' h g) =
      none_acts s' (nothing_before nsig h) (Consumed-trans small step g)
  Handled-ignored small o (enters n s' set h ne g) = rw (same_handler n) (
      enters n s' (sym (step.kept n (later n set)) ∙ set) (nothing_before n h)
        (λ z. ne (same_handler n ∙ z)) (Consumed-trans (omega (arith, later n set)) step g))
  Handled-ignored small o (ends n s' set h z d g) =
      ends n s' (sym (step.kept n (later n set)) ∙ set) (nothing_before n h)
        (sym (same_handler n) ∙ z) d g

-- What k_process_handle_signal does in the three cases
module _ (k : ℕ) (s : Sched) (sig : ℕ) (awake : (s.proc s.current).flags.finished ≡ false) where
  pub handle_entered :
      (s.proc s.current).handler sig ≢ 0
      → k_process_handle_signal k s sig ≡ some (entered ((s.proc s.current).handler sig) sig s)
  unfolding k_process_handle_signal
  handle_entered ne =
      let set : ((s.proc s.current).handler sig == 0) ≡ false = ground arith in rw (awake, set) refl

  pub handle_nothing :
      Ignored (s.proc s.current) sig
      → k_process_handle_signal k s sig
        ≡ some (back (not (some_bit 64 0 (s.proc s.current).pending)) s)
  unfolding k_process_handle_signal
  handle_nothing (e, d) =
      let unset : ((s.proc s.current).handler sig == 0) ≡ true = ground arith in
      rw (awake, unset, d) refl

  pub handle_ended :
      (s.proc s.current).handler sig ≡ 0
      → signal_defaults sig ≡ some true
      → (s' : Sched) → k_process_exit k s ((128 + sig) * 256) ≡ some s'
      → k_process_handle_signal k s sig ≡ some (exited ((128 + sig) * 256) s')
  unfolding k_process_handle_signal
  handle_ended e d s' x =
      let unset : ((s.proc s.current).handler sig == 0) ≡ true = ground arith in
      rw (awake, unset, d, x) refl
