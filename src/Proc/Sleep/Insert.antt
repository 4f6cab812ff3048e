-- ===== src/Proc/Sleep/Insert.antt =====
-- k_process_sleep keeps the sleep queue sorted.
use wyrm_os.Base.{
  ℕ, ◌≡◌, ◌≢◌, inl, inr, refl, ap, sym, Bool, true, false, List, [], ◌∷◌, ◌++◌, arith, Bool-cases,
  given,
}
use wyrm_os.Proc.Process.{Sched}
use wyrm_os.Proc.Sleep.{
  later, insert_loop, asleep, queued, k_process_sleep, NotLater, whos, All, Sorted, Distinct,
  SameTime,
}

NotLater-SameTime :
    (s t : Sched) (p : ℕ) (ps : List ℕ)
    → SameTime s t p
    → All (SameTime s t) ps
    → All (NotLater t p) ps
    → All (NotLater s p) ps
NotLater-SameTime s t p [] here same all = tt
NotLater-SameTime s t p (q ∷ qs) (e, e') ((f, f'), same) (le, all) =
    (rw (e, e', f, f') le, NotLater-SameTime s t p qs (e, e') same all)

Sorted-SameTime : (s t : Sched) (ps : List ℕ) → All (SameTime s t) ps → Sorted t ps → Sorted s ps
Sorted-SameTime s t [] same sorted = tt
Sorted-SameTime s t (p ∷ ps) (here, same) (first, sorted) =
    (NotLater-SameTime s t p ps here same first, Sorted-SameTime s t ps same sorted)

-- Insertion keeps what holds of all processes of the queue and of the one inserted.
insert_loop-All :
    (P : ℕ → Type 0) (s : Sched) (cur : ℕ) (first : Bool) (nodes : List (ℕ × Bool))
    → P cur
    → All P (whos nodes)
    → All P (whos (insert_loop s cur first nodes))
unfolding insert_loop
insert_loop-All P s cur first [] here all = (here, tt)
insert_loop-All P s cur first (node ∷ nodes) here (head, all) =
    elim (Bool-cases (later s node.0 cur)) [
      | inl yes' ↦ rw yes' (here, (head, all))
      | inr no' ↦ rw no' (head, insert_loop-All P s cur false nodes here all)
    ]

before-All :
    (s : Sched) (p cur : ℕ) (ps : List ℕ)
    → later s p cur ≡ true
    → All (NotLater s p) ps
    → All (NotLater s cur) ps
before-All s p cur [] late all = tt
before-All s p cur (q ∷ qs) late (le, all) = (ground arith, before-All s p cur qs late all)

insert_loop-Sorted :
    (s : Sched) (cur : ℕ) (first : Bool) (nodes : List (ℕ × Bool))
    → Sorted s (whos nodes)
    → Sorted s (whos (insert_loop s cur first nodes))
unfolding insert_loop
insert_loop-Sorted s cur first [] sorted = (tt, tt)
insert_loop-Sorted s cur first (node ∷ nodes) (head, sorted) =
    elim (Bool-cases (later s node.0 cur)) [
      | inl yes' ↦
          rw yes' ((ground arith, before-All s node.0 cur (whos nodes) yes' head), (head, sorted))
      | inr no' ↦ rw no' (
        insert_loop-All (NotLater s node.0) s cur false nodes no' head,
        insert_loop-Sorted s cur false nodes sorted,
      )
    ]

insert_loop-Distinct :
    (s : Sched) (cur : ℕ) (first : Bool) (nodes : List (ℕ × Bool))
    → All (λ q. q ≢ cur) (whos nodes)
    → Distinct (whos nodes)
    → Distinct (whos (insert_loop s cur first nodes))
unfolding insert_loop
insert_loop-Distinct s cur first [] other apart = (tt, tt)
insert_loop-Distinct s cur first (node ∷ nodes) (ne, other) (head, apart) =
    elim (Bool-cases (later s node.0 cur)) [
      | inl yes' ↦ rw yes' ((ne, other), (head, apart))
      | inr no' ↦ rw no' (
        insert_loop-All (λ q. q ≢ node.0) s cur false nodes (λ e. ne (sym e)) head,
        insert_loop-Distinct s cur false nodes other apart,
      )
    ]

-- The nodes of the queue with the process inserted.
insert_loop-append :
    (s : Sched) (cur : ℕ) (first : Bool) (nodes : List (ℕ × Bool))
    → (before : List (ℕ × Bool)) × (after : List (ℕ × Bool)) × (own : Bool) × (nodes
        ≡ before ++ after)
      × (insert_loop s cur first nodes ≡ before ++ ((cur, own) ∷ after))
unfolding insert_loop
insert_loop-append s cur first [] = ([], [], first, refl, refl)
insert_loop-append s cur first (node ∷ nodes) = elim (Bool-cases (later s node.0 cur)) [
  | inl yes' ↦ rw yes' ([], node ∷ nodes, first, refl, refl)
  | inr no' ↦
      let (before, after, own, e, e') = insert_loop-append s cur false nodes in
      rw no' (
        node ∷ before,
        after,
        own,
        ap (λ (l : List (ℕ × Bool)). node ∷ l) e,
        ap (λ (l : List (ℕ × Bool)). node ∷ l) e',
      )
]

-- Where the current process's sleep_node has no owner, the sleep queue holds no node of the process,
-- no process twice, and is sorted by time, k_process_sleep inserts the process into the queue with the
-- other nodes in order, the queue is sorted and holds no process twice as before, and the process has
-- the time asked for and the state of a sleeping one.
pub k_process_sleep-Sorted :
    (s : Sched) (seconds subseconds : ℕ)
    → s.locked s.current ≡ false
    → All (λ q. q ≢ s.current) (whos s.sleep_queue)
    → Distinct (whos s.sleep_queue)
    → Sorted s (whos s.sleep_queue)
    → (s' : Sched) × (k_process_sleep s seconds subseconds ≡ s')
      × Sorted s' (whos s'.sleep_queue)
      × Distinct (whos s'.sleep_queue)
      × ((before : List (ℕ × Bool)) × (after : List (ℕ × Bool)) × (own : Bool) × (s.sleep_queue
            ≡ before ++ after)
          × (s'.sleep_queue ≡ before ++ ((s.current, own) ∷ after)))
      × ((s'.proc s.current).sleep_seconds ≡ seconds)
      × ((s'.proc s.current).sleep_subseconds ≡ subseconds)
      × ((s'.proc s.current).flags.sleeping ≡ true)
unfolding k_process_sleep
k_process_sleep-Sorted s seconds subseconds free other apart sorted =
    given (same_all (whos s.sleep_queue) other) λ same. (
      queued (asleep s seconds subseconds),
      rw free refl,
      insert_loop-Sorted (asleep s seconds subseconds) s.current true s.sleep_queue
          (Sorted-SameTime (asleep s seconds subseconds) s (whos s.sleep_queue) same sorted),
      insert_loop-Distinct (asleep s seconds subseconds) s.current true s.sleep_queue other apart,
      insert_loop-append (asleep s seconds subseconds) s.current true s.sleep_queue,
      ground arith,
      ground arith,
      ground arith,
    )
  where
    same_all :
        (ps : List ℕ)
        → All (λ q. q ≢ s.current) ps
        → All (SameTime (asleep s seconds subseconds) s) ps
    same_all [] other = tt
    same_all (p ∷ ps) (ne, other) = ((ground arith, ground arith), same_all ps other)
