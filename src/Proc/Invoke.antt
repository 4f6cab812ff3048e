-- ===== src/Proc/Invoke.antt =====
-- k_process_handle_signal and k_process_invoke_signals of kernel/proc/process.c: the signals that are
-- pending when the kernel goes back to the program. `none` is a read behind the end of
-- `__signal_defaults`, or that the rounds run out.
pub mod Lowest
pub mod Handled
pub mod Rounds
mod Tests
use wyrm_os.Base.{
  ℕ, zero, suc, ◌+◌, ◌-◌, ◌*◌, Bool, true, false, not, ◌||◌, Option, none, some, ◌==◌,
  if◌then◌else◌,
}
use wyrm_os.Base.Fail.{◌>>=◌}
use wyrm_os.Proc.Process.{Sched, set_proc}
use wyrm_os.Proc.Queues.{k_process_exit}
use wyrm_os.Proc.Signals.{nsig, signal_defaults}

-- Where the processor goes on: behind the call, in the process that k_process_exit has chosen, or at
-- the handler of a signal in the program.
pub data Outcome : Type 0 where
  back : (handled : Bool) → Sched → Outcome
  exited : (code : ℕ) → Sched → Outcome
  entered : (handler sig : ℕ) → Sched → Outcome

-- Whether one of `left` bits from bit `n` on is set
unfoldable pub some_bit : (left n : ℕ) → (ℕ → Bool) → Bool
some_bit zero n b = false
some_bit (suc left) n b = b n || some_bit left (n + 1) b

-- `clear_sig_pending(prc, n)`
abbrev pub clear_sig_pending : Sched → ℕ → ℕ → Sched
clear_sig_pending s p n =
    set_proc s p
      (record (s.proc p) { pending = λ k. if k == n then false else (s.proc p).pending k })

-- `k` bounds the rounds of k_process_get_ready.
pub k_process_handle_signal : (k : ℕ) → Sched → (sig : ℕ) → Option Outcome
unfolding some_bit
k_process_handle_signal k s sig =
    let cur = s.proc s.current in
    if cur.flags.finished
    then some (back true s)
    else if cur.handler sig == 0
    then elim (signal_defaults sig) [
      | none ↦ none
      | some terminate ↦
          if terminate
          then (do
            s' ← k_process_exit k s ((128 + sig) * 256)
            some (exited ((128 + sig) * 256) s'))
          else some (back (not (some_bit 64 0 cur.pending)) s)
    ]
    else some (entered (cur.handler sig) sig s)

-- The loop over the signals from `n` on, `left` of them: the first one that is pending. `sigset` is
-- an int, whose bits are those of the set from `n` on.
unfoldable pub first_pending : (left n : ℕ) → (ℕ → Bool) → Option ℕ
unfolding some_bit
first_pending zero n b = none
first_pending (suc left) n b =
    let rest = first_pending left (n + 1) b in
    if some_bit (32 - n) n b then (if b n then some n else rest) else none

-- The jumps back to `start`, `rounds` at most
pub k_process_invoke_signals : (rounds k : ℕ) → Sched → Option Outcome
unfolding first_pending k_process_handle_signal
k_process_invoke_signals zero k s = none
k_process_invoke_signals (suc rounds) k s = elim (first_pending nsig 0 (s.proc s.current).pending) [
  | none ↦ some (back true s)
  | some sig ↦ do
    o ← k_process_handle_signal k (clear_sig_pending s s.current sig) sig
    elim o [
      | back handled s' ↦ elim handled [
        | true ↦ some (back true s')
        | false ↦ k_process_invoke_signals rounds k s'
      ]
      | exited code s' ↦ some (exited code s')
      | entered handler sig' s' ↦ some (entered handler sig' s')
    ]
]
