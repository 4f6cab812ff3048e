-- ===== src/Proc/Signals/Self.antt =====
-- A signal that the kernel sends to the current process.
use wyrm_os.Base.{
  ℕ, ◌≡◌, ◌≢◌, refl, ap, ◌∙◌, true, false, some, leb, ◌==◌, arith, Bool-cases, inl, inr, pos, ◌<◌,
}
use wyrm_os.Proc.Process.{Sched}
use wyrm_os.Proc.Signals.{
  nsig, signal_defaults, k_process_get_by_pid, set_sig_pending, k_process_send_signal, deliver,
}

deliver_self : (s : Sched) (sig : ℕ) → deliver s s.current sig ≡ set_sig_pending s s.current sig
deliver_self s sig = let self : (s.current == s.current) ≡ true = ground arith in rw self refl

-- A signal whose default ends the process becomes pending, whether a handler is set or not.
pub send_signal_self :
    (s : Sched) (sig : ℕ)
    → k_process_get_by_pid s (s.proc s.current).pid ≡ s.current
    → s.current ≢ 0
    → sig < nsig
    → signal_defaults sig ≡ some true
    → k_process_send_signal s (s.proc s.current).pid (pos sig)
      ≡ some (pos 0, set_sig_pending s s.current sig)
unfolding k_process_send_signal
send_signal_self s sig own there below d =
    sent
    ∙ ap (λ (p : ℕ). some (pos 0, deliver s p sig)) own
    ∙ ap (λ (z : Sched). some (pos 0, z)) (deliver_self s sig)
  where
    sent :
        k_process_send_signal s (s.proc s.current).pid (pos sig)
        ≡ some (pos 0, deliver s (k_process_get_by_pid s (s.proc s.current).pid) sig)
    sent =
        let target : ℕ = k_process_get_by_pid s (s.proc s.current).pid in
        let some_process : (target == 0) ≡ false = ground arith in
        let in_range : leb nsig sig ≡ false = ground arith in
        elim (Bool-cases ((s.proc target).handler sig == 0)) [
          | inr set ↦ rw (some_process, in_range, set) refl
          | inl unset ↦ rw (some_process, in_range, unset, d) refl
        ]
