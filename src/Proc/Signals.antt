-- ===== src/Proc/Signals.antt =====
-- k_process_get_by_pid and k_process_send_signal of kernel/proc/process.c.
pub mod Self
use wyrm_os.Base.{
  ℕ, ◌<◌, ◌≡◌, ◌≢◌, ◌∙◌, ◌⊎◌, inl, inr, refl, Bool, true, false, not, ◌&&◌, ◌||◌, Option, none,
  some, List, [], ◌∷◌, leb, ltb, ◌==◌, if◌then◌else◌, arith, Bool-cases, given, ℤ, pos, negsuc,
}
use wyrm_os.Proc.Process.{Sched, set_proc, is_ready}
use wyrm_os.Proc.Queues.{link_ready}

abbrev pub nsig : ℕ
nsig = 19

-- `__signal_defaults`: whether the default is to terminate. It has sixteen entries; `none` is a read
-- behind them.
abbrev pub signal_defaults : ℕ → Option Bool
signal_defaults sig =
    if ltb sig 16 then some ((sig == 6) || (sig == 9) || (sig == 11) || (sig == 15)) else none

unfoldable find_pid : Sched → ℕ → List ℕ → ℕ
find_pid s pid [] = 0
find_pid s pid (p ∷ ps) = let rest = find_pid s pid ps in if (s.proc p).pid == pid then p else rest

-- 0 is NULL.
unfoldable pub k_process_get_by_pid : Sched → (pid : ℕ) → ℕ
unfolding find_pid
k_process_get_by_pid s pid = find_pid s pid s.process_list

-- `set_sig_pending(prc, n)`
abbrev pub set_sig_pending : Sched → ℕ → ℕ → Sched
set_sig_pending s p n =
    set_proc s p
      (record (s.proc p) { pending = λ k. if k == n then true else (s.proc p).pending k })

-- The end of k_process_send_signal, once the signal is not ignored.
abbrev pub deliver : Sched → (target sig : ℕ) → Sched
deliver s target sig =
    let s' = set_sig_pending s target sig in
    if target == s.current
    then s'
    else if not (is_ready s target) && not (s.proc target).flags.running
    then link_ready s' target
    else s'

-- The result and the state; `none` where the default of a signal without an entry is read.
pub k_process_send_signal : Sched → (pid : ℕ) → (sig : ℤ) → Option (ℤ × Sched)
unfolding k_process_get_by_pid
k_process_send_signal s pid (negsuc n) = some (negsuc 0, s)
k_process_send_signal s pid (pos sig) =
    let target = k_process_get_by_pid s pid in
    if target == 0
    then some (negsuc 0, s)
    else if leb nsig sig
    then some (negsuc 0, s)
    else if (s.proc target).handler sig == 0
    then elim (signal_defaults sig) [
      | none ↦ none
      | some terminate ↦ if terminate then some (pos 0, deliver s target sig) else some (pos 0, s)
    ]
    else some (pos 0, deliver s target sig)

find_pid-pid :
    (s : Sched) (pid : ℕ) (ps : List ℕ)
    → find_pid s pid ps ≢ 0
    → (s.proc (find_pid s pid ps)).pid ≡ pid
unfolding find_pid
find_pid-pid s pid [] found = absurd (found refl)
find_pid-pid s pid (p ∷ ps) found = elim (Bool-cases ((s.proc p).pid == pid)) [
  | inl yes' ↦ rw yes' (ground arith)
  | inr no' ↦ rw no' (find_pid-pid s pid ps (rw no' at found))
]

-- What a delivered signal leaves.
abbrev pub Delivered : Sched → (target sig : ℕ) → Sched → Type 0
Delivered s target sig s' =
    ((s'.proc target).pending sig ≡ true)
    × ((k : ℕ) → k ≢ sig → (s'.proc target).pending k ≡ (s.proc target).pending k)
    × ((target ≡ s.current) ⊎ ((s.proc target).flags.running ≡ true) ⊎ (is_ready s' target ≡ true))

marked :
    (s : Sched) (target sig : ℕ)
    → (((set_sig_pending s target sig).proc target).pending sig ≡ true)
      × ((k : ℕ)
          → k ≢ sig
          → ((set_sig_pending s target sig).proc target).pending k ≡ (s.proc target).pending k)
marked s target sig = (ground arith, λ k ne. ground arith)

linked :
    (s : Sched) (p : ℕ)
    → ((k : ℕ) → ((link_ready s p).proc p).pending k ≡ (s.proc p).pending k)
      × (is_ready (link_ready s p) p ≡ true)
linked s p = (λ k. ground arith, ground arith)

moved : (P : Sched → Type 0) {a b : Sched} → a ≡ b → P b → P a
moved P e p = rw e p

deliver-Delivered : (s : Sched) (target sig : ℕ) → Delivered s target sig (deliver s target sig)
deliver-Delivered s target sig = given (marked s target sig) λ (set, others).
    elim (Bool-cases (target == s.current)) [
      | inl yes' ↦ rw yes' (set, others, inl (ground arith))
      | inr no' ↦ elim (Bool-cases (is_ready s target)) [
        | inl ready ↦ rw (no', ready) (set, others, inr (inr ready))
        | inr waiting ↦ elim (Bool-cases (s.proc target).flags.running) [
          | inl runs ↦
              moved (Delivered s target sig) (left_running no' waiting runs)
                (set, others, inr (inl runs))
          | inr stopped ↦ given (linked (set_sig_pending s target sig) target) λ (same, ready).
              moved (Delivered s target sig) (made_ready no' waiting stopped)
                (same sig ∙ set, λ k ne. same k ∙ others k ne, inr (inr ready))
        ]
      ]
    ]
  where
    left_running :
        (target == s.current) ≡ false
        → is_ready s target ≡ false
        → (s.proc target).flags.running ≡ true
        → deliver s target sig ≡ set_sig_pending s target sig
    left_running no' waiting runs = rw (no', waiting, runs) refl

    made_ready :
        (target == s.current) ≡ false
        → is_ready s target ≡ false
        → (s.proc target).flags.running ≡ false
        → deliver s target sig ≡ link_ready (set_sig_pending s target sig) target
    made_ready no' waiting stopped = rw (no', waiting, stopped) refl

-- k_process_send_signal to a process that exists, of a signal below NSIG that has a handler or whose
-- default is to terminate, returns 0: the signal is pending for the first process with that pid, its
-- other signals are as before, and the process is the current one, is running or is ready.
pub k_process_send_signal-Delivered :
    (s : Sched) (pid sig : ℕ)
    → k_process_get_by_pid s pid ≢ 0
    → sig < nsig
    → ((s.proc (k_process_get_by_pid s pid)).handler sig ≢ 0) ⊎ (signal_defaults sig ≡ some true)
    → (s' : Sched) × (k_process_send_signal s pid (pos sig) ≡ some (pos 0, s'))
      × ((s.proc (k_process_get_by_pid s pid)).pid ≡ pid)
      × Delivered s (k_process_get_by_pid s pid) sig s'
unfolding k_process_send_signal k_process_get_by_pid
k_process_send_signal-Delivered s pid sig found below heard = (
  deliver s (k_process_get_by_pid s pid) sig,
  sent heard,
  find_pid-pid s pid s.process_list found,
  deliver-Delivered s (k_process_get_by_pid s pid) sig,
)
  where
    sent :
        ((s.proc (k_process_get_by_pid s pid)).handler sig ≢ 0) ⊎ (signal_defaults sig ≡ some true)
        → k_process_send_signal s pid (pos sig)
          ≡ some (pos 0, deliver s (k_process_get_by_pid s pid) sig)
    sent heard =
        let target : ℕ = k_process_get_by_pid s pid in
        let some_process : (target == 0) ≡ false = ground arith in
        let in_range : leb nsig sig ≡ false = ground arith in
        elim (Bool-cases ((s.proc target).handler sig == 0)) [
          | inr handled ↦ rw (some_process, in_range, handled) refl
          | inl default ↦ elim heard [
            | inl ne ↦ absurd (ground arith)
            | inr ends ↦ rw (some_process, in_range, default, ends) refl
          ]
        ]
