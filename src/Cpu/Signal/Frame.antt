-- ===== src/Cpu/Signal/Frame.antt =====
-- The stack frame of a signal's handler.
use wyrm_os.Base.{
  ℕ, suc, ◌+◌, ◌-◌, ◌*◌, ◌/◌, ◌%◌, ◌^◌, ◌<◌, ◌≤◌, ◌≡◌, ◌∙◌, refl, sym, ap, List, [], ◌∷◌, length,
  arith, inl, inr,
}
use mathlib.Core.Path.{subst}
use wyrm_os.Base.Word.{u64, align}
use wyrm_os.Base.Align.{align_sixteen}
use wyrm_os.Libc.Bytes.{Bytes}
use wyrm_os.Libc.Words.{store_le, load_le-store_le, store_le-SameBut, load_le_same}
use wyrm_os.Exec.Elf.{u64_at}
use wyrm_os.Exec.Start.{Pushed, push_word}
use wyrm_os.Exec.Start.Stack.{Grown, push_word-Grown, push_word_load}
use wyrm_os.Cpu.Signal.{Regs, words, store_words, load_regs, push_regs, enter_signal, exit_signal}

-- all are words of 64 bits
abbrev pub AllWords : List ℕ → Type 0
AllWords [] = Unit {0}
AllWords (w ∷ ws) = (w < 2 ^ 64) × AllWords ws

-- The words stand in memory from `p` on.
abbrev pub Stored : Bytes → ℕ → List ℕ → Type 0
Stored m p [] = Unit {0}
Stored m p (w ∷ ws) = (u64_at m p ≡ w) × Stored m (p + 8) ws

store_words_same : (m : Bytes) (p : ℕ) (ws : List ℕ) (q : ℕ) → q < p → store_words m p ws q ≡ m q
unfolding store_words
store_words_same m p [] q lt = refl
store_words_same m p (w ∷ ws) q lt =
    store_words_same (store_le m p 8 w) (p + 8) ws q (omega arith)
    ∙ store_le-SameBut m p 8 w q (inl lt)

store_words_above :
    (m : Bytes) (p : ℕ) (ws : List ℕ) (q : ℕ) → p + 8 * length ws ≤ q → store_words m p ws q ≡ m q
unfolding store_words
store_words_above m p [] q le = refl
store_words_above m p (w ∷ ws) q le =
    store_words_above (store_le m p 8 w) (p + 8) ws q (omega arith)
    ∙ store_le-SameBut m p 8 w q (inr (omega arith))

pub store_words-Stored :
    (m : Bytes) (p : ℕ) (ws : List ℕ) → AllWords ws → Stored (store_words m p ws) p ws
unfolding store_words
store_words-Stored m p [] a = tt
store_words-Stored m p (w ∷ ws) (fits, a) = (
  load_le_same (store_le m p 8 w) _ p 8
        (λ q low high. store_words_same (store_le m p 8 w) (p + 8) ws q (omega arith))
      ∙ load_le-store_le m p 8 w (omega arith),
  store_words-Stored (store_le m p 8 w) (p + 8) ws a,
)

Stored-same :
    (m m' : Bytes) (p : ℕ) (ws : List ℕ)
    → ((q : ℕ) → p ≤ q → q < p + 8 * length ws → m' q ≡ m q)
    → Stored m p ws
    → Stored m' p ws
Stored-same m m' p [] same t = tt
Stored-same m m' p (w ∷ ws) same (e, t) = (
  load_le_same m m' p 8 (λ q low high. same q low (omega arith)) ∙ e,
  Stored-same m m' (p + 8) ws (λ q low high. same q (omega arith) (omega arith)) t,
)

-- The same by the number of each word
abbrev At : Bytes → (p i : ℕ) → List ℕ → Type 0
At m p i [] = Unit {0}
At m p i (w ∷ ws) = (u64_at m (p + 8 * i) ≡ w) × At m p (suc i) ws

Stored-At : (m : Bytes) (p i : ℕ) (ws : List ℕ) → Stored m (p + 8 * i) ws → At m p i ws
Stored-At m p i [] t = tt
Stored-At m p i (w ∷ ws) (e, t) =
    let next : p + 8 * i + 8 ≡ p + 8 * suc i = omega arith in
    (e, Stored-At m p (suc i) ws (rw next at t))

At-load_regs : (m : Bytes) (p : ℕ) (r : Regs) → At m p 0 (words r) → load_regs m p ≡ r
unfolding load_regs
At-load_regs m p r
      (
        e0,
        (
          e1,
          (
            e2,
            (
              e3,
              (
                e4,
                (
                  e5,
                  (
                    e6,
                    (
                      e7,
                      (
                        e8,
                        (
                          e9,
                          (
                            e10,
                            (
                              e11,
                              (
                                e12,
                                (e13, (e14, (e15, (e16, (e17, (e18, (e19, (e20, (e21, _))))))))),
                              ),
                            ),
                          ),
                        ),
                      ),
                    ),
                  ),
                ),
              ),
            ),
          ),
        ),
      ) =
    let first : p + 0 ≡ p = omega arith in
    rw
      (
        rw first at e0,
        e1,
        e2,
        e3,
        e4,
        e5,
        e6,
        e7,
        e8,
        e9,
        e10,
        e11,
        e12,
        e13,
        e14,
        e15,
        e16,
        e17,
        e18,
        e19,
        e20,
        e21,
      )
      refl

pub load_regs-Stored : (m : Bytes) (p : ℕ) (r : Regs) → Stored m p (words r) → load_regs m p ≡ r
load_regs-Stored m p r t =
    let first : p + 8 * 0 ≡ p = omega arith in
    At-load_regs m p r (Stored-At m p 0 (words r) (rw first t))

-- what is loaded depends on the bytes loaded
pub load_regs_same :
    (m m' : Bytes) (p : ℕ)
    → ((q : ℕ) → p ≤ q → q < p + 176 → m' q ≡ m q)
    → load_regs m' p ≡ load_regs m p
unfolding load_regs
load_regs_same m m' p same =
    rw
      (
        load_le_same m m' p 8 (λ q low high. same q low (omega arith)),
        word 8 (omega arith),
        word 16 (omega arith),
        word 24 (omega arith),
        word 32 (omega arith),
        word 40 (omega arith),
        word 48 (omega arith),
        word 56 (omega arith),
        word 64 (omega arith),
        word 72 (omega arith),
        word 80 (omega arith),
        word 88 (omega arith),
        word 96 (omega arith),
        word 104 (omega arith),
        word 112 (omega arith),
        word 120 (omega arith),
        word 128 (omega arith),
        word 136 (omega arith),
        word 144 (omega arith),
        word 152 (omega arith),
        word 160 (omega arith),
        word 168 (omega arith),
      )
      refl
  where
    word : (i : ℕ) → i + 8 ≤ 176 → u64_at m' (p + i) ≡ u64_at m (p + i)
    word i le = load_le_same m m' (p + i) 8 (λ q low high. same q (omega arith) (omega arith))

-- The stack of the handler
module _ (entry sig : ℕ) (r : Regs) (m : Bytes) (wide : AllWords (words r)) (room : 184 ≤ r.rsp)
    (fits : r.rsp + 15 < 2 ^ 64) where
  abbrev pushed : Pushed
  pushed = push_regs r (record { sp = align r.rsp 16; memory = m })

  pushed_sp : (pushed.sp + 176 ≡ (r.rsp + 15) / 16 * 16) × Stored pushed.memory pushed.sp (words r)
  unfolding push_regs
  pushed_sp = (
    omega (arith, align_sixteen r.rsp fits),
    store_words-Stored m (u64 (align r.rsp 16 + (2 ^ 64 - 176))) (words r) wide,
  )

  -- What is on the stack: the signal, and behind it the registers
  pub enter_signal-Stored :
      sig < 2 ^ 64
      → ((enter_signal entry sig r m).stack.sp + 184 ≡ (r.rsp + 15) / 16 * 16)
        × Stored
            (enter_signal entry sig r m).stack.memory
            (enter_signal entry sig r m).stack.sp
            (sig ∷ words r)
  unfolding enter_signal
  enter_signal-Stored small =
      let (sp, t) = pushed_sp in
      let g : Grown 8 pushed (push_word sig pushed) =
        push_word-Grown sig pushed (omega (arith, sp)) (omega (arith, sp)) in
      (
        omega (arith, sp, g.room),
        (
          push_word_load sig pushed small,
          subst (λ (z : ℕ). Stored (push_word sig pushed).memory z (words r)) (sym g.room)
              (Stored-same pushed.memory (push_word sig pushed).memory pushed.sp (words r)
                (λ q low high. g.above q low) t),
        ),
      )

-- A handler that comes back with the stack pointer that it was given, and that has not changed the
-- frame there, makes the kernel find the signal and all registers of the interrupted program, where
-- the program's stack has room for the frame.
pub enter_signal-exit_signal :
    (entry sig : ℕ) (r r' : Regs) (m m' : Bytes)
    → AllWords (words r)
    → 184 ≤ r.rsp
    → r.rsp + 15 < 2 ^ 64
    → sig < 2 ^ 64
    → r'.rsp ≡ (enter_signal entry sig r m).stack.sp
    → ((q : ℕ) → r'.rsp ≤ q → q < r'.rsp + 184 → m' q ≡ (enter_signal entry sig r m).stack.memory q)
    → exit_signal r' m' ≡ (sig, r)
unfolding exit_signal
enter_signal-exit_signal entry sig r r' m m' wide room fits small same_sp same =
    let (top, t) = enter_signal-Stored entry sig r m wide room fits small in
    let (e, t') =
      Stored-same (enter_signal entry sig r m).stack.memory m' r'.rsp (sig ∷ words r) same
        (rw same_sp t) in
    let next : u64 (r'.rsp + 8) ≡ r'.rsp + 8 = omega (arith, top, same_sp) in
    rw (e, next, load_regs-Stored m' (r'.rsp + 8) r t') refl

-- The stack pointer is rounded up: where it is 8 more than a multiple of 16, the word on top of the
-- program's stack becomes the saved `ss`.
pub enter_signal-ss :
    (entry sig : ℕ) (r : Regs) (m : Bytes)
    → AllWords (words r)
    → 184 ≤ r.rsp
    → r.rsp + 15 < 2 ^ 64
    → sig < 2 ^ 64
    → r.rsp % 16 ≡ 8
    → u64_at (enter_signal entry sig r m).stack.memory r.rsp ≡ r.ss
unfolding load_regs
enter_signal-ss entry sig r m wide room fits small odd =
    let (top, (_, t)) = enter_signal-Stored entry sig r m wide room fits small in
    let place : (enter_signal entry sig r m).stack.sp + 8 + 168 ≡ r.rsp = omega (arith, top) in
    let last : u64_at (enter_signal entry sig r m).stack.memory
          ((enter_signal entry sig r m).stack.sp + 8 + 168)
        ≡ r.ss =
      ap (λ (x : Regs). x.ss)
        (load_regs-Stored (enter_signal entry sig r m).stack.memory
          ((enter_signal entry sig r m).stack.sp + 8) r t) in
    rw place at last
