-- ===== src/Cpu/Interrupt/Fault.antt =====
-- What becomes of a program that faults.
use wyrm_os.Base.{
  ℕ, ◌+◌, ◌*◌, ◌^◌, ◌<◌, ◌≤◌, ◌≡◌, ◌≢◌, ◌∙◌, ◌⊎◌, inl, inr, refl, sym, ap, true, false, Option,
  some, ltb, leb, ◌==◌, arith, Bool-cases, given,
}
use wyrm_os.Libc.Bytes.{Bytes}
use wyrm_os.Proc.Process.{Sched}
use wyrm_os.Proc.Queues.Exit.{Ended}
use wyrm_os.Proc.Signals.{nsig, k_process_get_by_pid, set_sig_pending}
use wyrm_os.Proc.Signals.Self.{send_signal_self}
use wyrm_os.Proc.Invoke.{Outcome, back, exited, entered, k_process_invoke_signals}
use wyrm_os.Proc.Invoke.Handled.{Ignored, Handled, none_acts, enters, ends}
use wyrm_os.Proc.Invoke.Rounds.{Steady, k_process_invoke_signals-Handled}
use wyrm_os.Cpu.Signal.{Regs, words, enter_signal, exit_signal}
use wyrm_os.Cpu.Signal.Frame.{AllWords, enter_signal-exit_signal}
use wyrm_os.Cpu.Interrupt.{
  sigsegv, sig_ret_magic, max_interrupt, Trap, After, resumed, switched, jumped, from_program,
  signal_current, handle_pagefault, leave, dispatch_interrupt,
}

-- The signal that the fault is answered by: the lowest that acts, SIGSEGV or one below it. Its handler is
-- entered, or the process ends with its number.
abbrev pub Answered : Trap → After → Type 0
Answered t a =
    let s = t.sched in
    (sig : ℕ) × (sig ≤ sigsegv)
    × (((sig ≡ sigsegv) ⊎ ((s.proc s.current).pending sig ≡ true)))
    × ((((s.proc s.current).handler sig ≢ 0)
          × (s' : Sched) × (a
              ≡ jumped (enter_signal ((s.proc s.current).handler sig) sig t.regs t.memory) s')
          × ((s'.proc s.current).pending sig ≡ false))
        ⊎ (((s.proc s.current).handler sig ≡ 0)
            × (s' : Sched) × (a ≡ switched s')
            × Ended s.current ((128 + sig) * 256) s'))

Steady-pending :
    (k : ℕ) (s : Sched)
    → Steady k s.current s
    → Steady k s.current (set_sig_pending s s.current sigsegv)
Steady-pending k s f =
    let self : (s.current == s.current) ≡ true = ground arith in
    let other : (s.idle == s.current) ≡ false = ground (arith, f.apart) in
    record {
      awake = rw self f.awake;
      known = λ j lt set. elim (Bool-cases (j == sigsegv)) [
        | inl here ↦ let e : j ≡ sigsegv = ground arith in rw e (inr (inl refl))
        | inr there ↦ rw self (f.known j lt (rw (self, there) at set))
      ];
      apart = f.apart;
      lazy = rw other f.lazy;
      few = f.few;
    }

-- What the end of the interrupt makes of an outcome
abbrev after : Trap → Outcome → After
after t (back handled s) = resumed (record t { sched = s })
after t (exited code s) = switched s
after t (entered handler sig s) = jumped (enter_signal handler sig t.regs t.memory) s

leave-after :
    (rounds k : ℕ) (t : Trap) (o : Outcome)
    → from_program t ≡ true
    → k_process_invoke_signals rounds k t.sched ≡ some o
    → leave rounds k t ≡ some (after t o)
unfolding leave
leave-after rounds k t (back handled s) u e = rw (u, e) refl
leave-after rounds k t (exited code s) u e = rw (u, e) refl
leave-after rounds k t (entered handler sig s) u e = rw (u, e) refl

-- `s1` is the state where SIGSEGV is pending as well.
module _ (t : Trap) (s1 : Sched)
    (same : (j : ℕ)
      → (s1.proc t.sched.current).handler j ≡ (t.sched.proc t.sched.current).handler j)
    (on : (s1.proc t.sched.current).pending sigsegv ≡ true)
    (others : (j : ℕ)
      → j ≢ sigsegv
      → (s1.proc t.sched.current).pending j ≡ (t.sched.proc t.sched.current).pending j) where
  within :
      (sig : ℕ)
      → ((j : ℕ)
          → j < sig
          → (s1.proc t.sched.current).pending j ≡ true
          → Ignored (s1.proc t.sched.current) j)
      → sig ≤ sigsegv
  within sig h = elim (Bool-cases (leb sig sigsegv)) [
    | inl le ↦ ground arith
    | inr gt ↦ absurd (cc (h sigsegv (ground arith) on).1)
  ]

  was_pending :
      (sig : ℕ)
      → (s1.proc t.sched.current).pending sig ≡ true
      → (sig ≡ sigsegv) ⊎ ((t.sched.proc t.sched.current).pending sig ≡ true)
  was_pending sig set = elim (Bool-cases (sig == sigsegv)) [
    | inl here ↦ inl (ground arith)
    | inr there ↦ inr (sym (others sig (λ e. ground arith)) ∙ set)
  ]

  Handled-Answered :
      (o : Outcome) → Handled t.sched.current s1 o → Answered t (after (record t { sched = s1 }) o)
  Handled-Answered o (none_acts s' h g) = absurd (cc (h sigsegv (omega arith) on).1)
  Handled-Answered o (enters sig s' set h ne g) = (
    sig,
    within sig h,
    was_pending sig set,
    inl (
      (λ z. ne (same sig ∙ z)),
      s',
      ap (λ (z : ℕ). jumped (enter_signal z sig t.regs t.memory) s') (same sig),
      g.cleared sig (omega arith),
    ),
  )
  Handled-Answered o (ends sig s' set h z d g) =
      (sig, within sig h, was_pending sig set, inr (sym (same sig) ∙ z, s', refl, g))

signalled :
    (t : Trap)
    → k_process_get_by_pid t.sched (t.sched.proc t.sched.current).pid ≡ t.sched.current
    → t.sched.current ≢ 0
    → signal_current sigsegv t
      ≡ some (record t { sched = set_sig_pending t.sched t.sched.current sigsegv })
unfolding signal_current
signalled t own there = rw (send_signal_self t.sched sigsegv own there (omega arith) refl) refl

-- An interrupt with a handler in the table
handled :
    (handlers : ℕ → Option (Trap → Option Trap)) (rounds k n : ℕ) (t : Trap)
    → (handler : Trap → Option Trap) → handlers n ≡ some handler
    → n < max_interrupt
    → t.regs.int_no ≡ n
    → (t' : Trap) → handler t ≡ some t'
    → dispatch_interrupt handlers rounds k t ≡ leave rounds k t'
unfolding dispatch_interrupt
handled handlers rounds k n t handler table below number t' run =
    let small : ltb max_interrupt t.regs.int_no ≡ false = ground arith in
    let other : (t.regs.int_no == max_interrupt) ≡ false = ground arith in
    let found : handlers t.regs.int_no ≡ some handler = ap handlers number ∙ table in
    rw (small, other, found, run) refl

pagefault_signal :
    (address : ℕ) (t : Trap)
    → from_program t ≡ true
    → address ≢ sig_ret_magic
    → handle_pagefault address t ≡ signal_current sigsegv t
unfolding handle_pagefault
pagefault_signal address t user elsewhere =
    let no_return : (address == sig_ret_magic) ≡ false = ground arith in rw (user, no_return) refl

pagefault_return :
    (t : Trap) (sig : ℕ) (r : Regs)
    → from_program t ≡ true
    → exit_signal t.regs t.memory ≡ (sig, r)
    → handle_pagefault sig_ret_magic t ≡ some (record t { regs = r })
unfolding handle_pagefault
pagefault_return t sig r user e = rw user (ap (λ (x : ℕ × Regs). some (record t { regs = x.1 })) e)

-- After a page fault of a program, at another address than SIG_RET_MAGIC, a handler of the program is
-- entered, or it ends with the status of a signal and another process goes on; the signal is SIGSEGV or
-- a lower one that was pending already. This is where the current process has not finished and is the
-- one that its pid names, each of its pending signals that has no handler has its default in the table,
-- the idle process is another one and has not finished, and the bounds are enough: more than 19 rounds
-- of k_process_invoke_signals and more than the ready queue is long in the choice of the next process.
pub dispatch_interrupt-Answered :
    (handlers : ℕ → Option (Trap → Option Trap)) (rounds k address : ℕ) (t : Trap)
    → handlers 14 ≡ some (handle_pagefault address)
    → t.regs.int_no ≡ 14
    → from_program t ≡ true
    → address ≢ sig_ret_magic
    → k_process_get_by_pid t.sched (t.sched.proc t.sched.current).pid ≡ t.sched.current
    → nsig < rounds
    → Steady k t.sched.current t.sched
    → (a : After) × (dispatch_interrupt handlers rounds k t ≡ some a) × Answered t a
dispatch_interrupt-Answered handlers rounds k address t table fault user elsewhere own enough
      steady =
    let s1 : Sched = set_sig_pending t.sched t.sched.current sigsegv in
    let self : (t.sched.current == t.sched.current) ≡ true = ground arith in
    let there : t.sched.current ≢ 0 = ground (arith, user) in
    given (k_process_invoke_signals-Handled rounds k s1 enough (Steady-pending k t.sched steady))
      λ (o, run, h). (
        after (record t { sched = s1 }) o,
        handled handlers rounds k 14 t (handle_pagefault address) table (omega arith) fault
              (record t { sched = s1 })
              (pagefault_signal address t user elsewhere ∙ signalled t own there)
            ∙ leave-after rounds k (record t { sched = s1 }) o user run,
        Handled-Answered t s1 (λ j. rw self refl) (rw self refl)
            (λ j ne. let apart : (j == sigsegv) ≡ false = ground arith in rw (self, apart) refl) o
            h,
      )

-- Where the handler of a signal jumps to SIG_RET_MAGIC with the stack that it was given, the kernel goes
-- on as if the program had been interrupted with the registers that it had before the handler.
pub dispatch_interrupt-leave :
    (handlers : ℕ → Option (Trap → Option Trap)) (rounds k entry sig : ℕ) (r : Regs) (m : Bytes)
    (t : Trap)
    → handlers 14 ≡ some (handle_pagefault sig_ret_magic)
    → t.regs.int_no ≡ 14
    → from_program t ≡ true
    → AllWords (words r)
    → 184 ≤ r.rsp
    → r.rsp + 15 < 2 ^ 64
    → sig < 2 ^ 64
    → t.regs.rsp ≡ (enter_signal entry sig r m).stack.sp
    → ((q : ℕ)
        → t.regs.rsp ≤ q
        → q < t.regs.rsp + 184
        → t.memory q ≡ (enter_signal entry sig r m).stack.memory q)
    → dispatch_interrupt handlers rounds k t ≡ leave rounds k (record t { regs = r })
dispatch_interrupt-leave handlers rounds k entry sig r m t table fault user wide room fits small sp
      same =
    handled handlers rounds k 14 t (handle_pagefault sig_ret_magic) table (omega arith) fault
      (record t { regs = r })
      (pagefault_return t sig r user
        (enter_signal-exit_signal entry sig r t.regs m t.memory wide room fits small sp same))
