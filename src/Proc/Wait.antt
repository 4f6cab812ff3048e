-- ===== src/Proc/Wait.antt =====
-- k_process_sleep_on_queue and k_process_wakeup_queue of kernel/proc/process.c. A wait queue is the
-- list of the processes whose sleep_node is in it, from the head to the tail.
use wyrm_os.Base.{
  ℕ, zero, suc, ◌<◌, ◌≡◌, ◌≢◌, ◌∙◌, ◌⊎◌, inl, inr, refl, ap, sym, Bool, true, false, Option, none,
  some, List, [], ◌∷◌, ◌++◌, ◌==◌, if◌then◌else◌, length, length-append, append_assoc, append_nil,
  arith, Bool-cases, given,
}
use wyrm_os.Base.Fail.{◌>>=◌}
use wyrm_os.Proc.Process.{Sched, set_flags, is_ready}
use wyrm_os.Proc.Queues.{
  pop_back, pop_back-append, alive, link_ready, k_process_make_ready, k_process_switch,
}
use wyrm_os.Proc.Sleep.{All, Distinct}

-- The locks of sleep_node that taking `p` into a queue, or out of it, leaves
abbrev pub set_locked : Sched → ℕ → Bool → Sched
set_locked s p b = record s { locked = λ q. if q == p then b else s.locked q }

abbrev pub asleep_on : Sched → Sched
asleep_on s =
    set_locked
      (set_flags s s.current (record { running = false; finished = false; sleeping = true }))
      s.current true

-- The queue and the state behind the switch to another process
pub k_process_sleep_on_queue : (rounds : ℕ) → Sched → List ℕ → Option (List ℕ × Sched)
k_process_sleep_on_queue rounds s queue =
    if s.locked s.current
    then (k_process_switch rounds s false >>= λ s'. some (queue, s'))
    else (k_process_switch rounds (asleep_on s) false >>= λ s'.
        some (queue ++ (s.current ∷ []), s'))

-- The body of the loop for a process taken out of the queue
abbrev pub wake_one : Sched → ℕ → Option Sched
wake_one s p = if (s.proc p).flags.finished then some s else k_process_make_ready s p

-- `while(queue->size)`
pub wakeup_loop : (rounds : ℕ) → List ℕ → Sched → Option Sched
wakeup_loop zero queue s = none
wakeup_loop (suc k) queue s = elim (pop_back queue) [
  | none ↦ some s
  | some (queue', p) ↦ wake_one (set_locked s p false) p >>= wakeup_loop k queue'
]

-- The queue is empty behind it.
pub k_process_wakeup_queue : (rounds : ℕ) → Sched → List ℕ → Option Sched
unfolding wakeup_loop
k_process_wakeup_queue rounds s queue = wakeup_loop rounds queue s

alive-append : (s : Sched) (xs ys : List ℕ) → alive s (xs ++ ys) ≡ alive s xs ++ alive s ys
alive-append s [] ys = refl
alive-append s (x ∷ xs) ys = elim (Bool-cases (s.proc x).flags.finished) [
  | inl e ↦ rw e (alive-append s xs ys)
  | inr e ↦ rw e (ap (λ zs. x ∷ zs) (alive-append s xs ys))
]

finished_same :
    (s : Sched) (p x : ℕ) → ((link_ready s p).proc x).flags.finished ≡ (s.proc x).flags.finished
finished_same s p x = elim (Bool-cases (x == p)) [
  | inl e ↦ let q : x ≡ p = ground arith in rw e (ap (λ (t : ℕ). (s.proc t).flags.finished) (sym q))
  | inr e ↦ rw e refl
]

-- Making a process ready finishes none.
alive-link_ready : (s : Sched) (p : ℕ) (xs : List ℕ) → alive (link_ready s p) xs ≡ alive s xs
alive-link_ready s p [] = refl
alive-link_ready s p (x ∷ xs) =
    ap (λ (b : Bool). if b then alive (link_ready s p) xs else x ∷ alive (link_ready s p) xs)
      (finished_same s p x)
    ∙ ap (λ (zs : List ℕ). if (s.proc x).flags.finished then zs else x ∷ zs)
        (alive-link_ready s p xs)

snoc-cases : (xs : List ℕ) → (xs ≡ []) ⊎ ((ys : List ℕ) × (y : ℕ) × (xs ≡ ys ++ (y ∷ [])))
snoc-cases [] = inl refl
snoc-cases (x ∷ xs) = elim (snoc-cases xs) [
  | inl e ↦ inr ([], x, ap (λ zs. x ∷ zs) e)
  | inr (ys, y, e) ↦ inr (x ∷ ys, y, ap (λ zs. x ∷ zs) e)
]

All-append : (P : ℕ → Type 0) (xs : List ℕ) (y : ℕ) → All P (xs ++ (y ∷ [])) → All P xs × P y
All-append P [] y (py, all) = (tt, py)
All-append P (x ∷ xs) y (px, all) = given (All-append P xs y all) λ (pxs, py). ((px, pxs), py)

Distinct-append :
    (xs : List ℕ) (y : ℕ) → Distinct (xs ++ (y ∷ [])) → Distinct xs × All (λ x. x ≢ y) xs
Distinct-append [] y apart = (tt, tt)
Distinct-append (x ∷ xs) y (out, apart) = given (Distinct-append xs y apart) λ (apart', rest).
    given (All-append (λ q. q ≢ x) xs y out) λ (out', ne). ((out', apart'), (λ e. ne (sym e), rest))

still_away :
    (s : Sched) (p : ℕ) (xs : List ℕ)
    → All (λ x. is_ready s x ≡ false) xs
    → All (λ x. x ≢ p) xs
    → All (λ x. is_ready (link_ready s p) x ≡ false) xs
still_away s p [] away apart = tt
still_away s p (x ∷ xs) (a, away) (ne, apart) =
    let e : (x == p) ≡ false = ground arith in (rw e a, still_away s p xs away apart)

make_ready_lem :
    (s : Sched) (p : ℕ) → is_ready s p ≡ false → k_process_make_ready s p ≡ some (link_ready s p)
unfolding k_process_make_ready
make_ready_lem s p e = rw e refl

-- What the loop leaves of a queue of different processes that are not ready
WokenUp : Sched → List ℕ → Sched → Type 0
WokenUp s queue s' = s'.ready_queue ≡ alive s queue ++ s.ready_queue

wakeup_step :
    (k : ℕ) (ys : List ℕ) (y : ℕ) (s : Sched)
    → wakeup_loop (suc k) (ys ++ (y ∷ [])) s
      ≡ (wake_one (set_locked s y false) y >>= wakeup_loop k ys)
unfolding wakeup_loop
wakeup_step k ys y s = rw (wakeup_loop, pop_back-append ys y) refl

wakeup_loop-WokenUp :
    (k : ℕ) (queue : List ℕ) (s : Sched)
    → length queue < k
    → Distinct queue
    → All (λ p. is_ready s p ≡ false) queue
    → (s' : Sched) × (wakeup_loop k queue s ≡ some s') × WokenUp s queue s'
unfolding wakeup_loop WokenUp pop_back
wakeup_loop-WokenUp zero queue s enough apart away = absurd (omega arith)
wakeup_loop-WokenUp (suc k) queue s enough apart away = elim (snoc-cases queue) [
  | inl e ↦ rw e (s, refl, refl)
  | inr (ys, y, e) ↦ given (Distinct-append ys y (rw e at apart)) λ (apart', ne).
      given (All-append (λ p. is_ready s p ≡ false) ys y (rw e at away)) λ (away', last).
        let few : length ys < k = omega (arith, length-append ys (y ∷ []), ap length e) in
        elim (Bool-cases (s.proc y).flags.finished) [
          | inl done ↦
              let none_left : alive s (ys ++ (y ∷ [])) ≡ alive s ys =
                alive-append s ys (y ∷ []) ∙ rw done (append_nil (alive s ys)) in
              given (wakeup_loop-WokenUp k ys (set_locked s y false) few apart' away')
                λ (s', run, ready).
                  rw (e, none_left) (s', wakeup_step k ys y s ∙ rw done run, ready)
          | inr live ↦
              let one_more : alive s (ys ++ (y ∷ [])) ≡ alive s ys ++ (y ∷ []) =
                alive-append s ys (y ∷ []) ∙ rw live refl in
              given
                (wakeup_loop-WokenUp k ys (link_ready (set_locked s y false) y) few apart'
                  (still_away (set_locked s y false) y ys away' ne))
                λ (s', run, ready).
                  rw (e, one_more)
                    (
                      s',
                      wakeup_step k ys y s
                          ∙ rw (live, make_ready_lem (set_locked s y false) y last) run,
                      ready
                          ∙ ap (λ (zs : List ℕ). zs ++ (y ∷ s.ready_queue))
                              (alive-link_ready (set_locked s y false) y ys)
                          ∙ sym (append_assoc (alive s ys) (y ∷ []) s.ready_queue),
                    )
        ]
]

-- k_process_wakeup_queue of different processes that are not ready puts those that are not finished
-- in front of the ready queue, in the order of the wait queue, so that the process that has waited
-- for the shortest time is scheduled first.
pub k_process_wakeup_queue-WokenUp :
    (rounds : ℕ) (s : Sched) (queue : List ℕ)
    → length queue < rounds
    → Distinct queue
    → All (λ p. is_ready s p ≡ false) queue
    → (s' : Sched) × (k_process_wakeup_queue rounds s queue ≡ some s')
      × (s'.ready_queue ≡ alive s queue ++ s.ready_queue)
unfolding k_process_wakeup_queue WokenUp
k_process_wakeup_queue-WokenUp rounds s queue enough apart away =
    wakeup_loop-WokenUp rounds queue s enough apart away
