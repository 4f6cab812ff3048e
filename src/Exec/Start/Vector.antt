-- ===== src/Exec/Start/Vector.antt =====
-- The vectors of arguments and of the environment on the stack of a new program.
use mathlib.Core.Path.{subst, sym}
use wyrm_os.Base.{ℕ, ◌+◌, ◌*◌, ◌%◌, ◌^◌, ◌≤◌, ◌<◌, ◌≡◌, ◌∙◌, List, [], ◌∷◌, length, arith, given}
use wyrm_os.Base.Word.{align}
use wyrm_os.Base.Align.{align_sixteen}
use wyrm_os.Libc.Bytes.{Bytes, CString}
use wyrm_os.Libc.Words.{load_le_same}
use wyrm_os.Exec.Elf.{u64_at}
use wyrm_os.Exec.Start.{Pushed, push_word, push_strings, push_places, push_vector, start_stack}
use wyrm_os.Exec.Start.Stack.{
  Grown, Strings, From, bytes_of, AllNonZero, CString-above, push_word-Grown, push_word_load,
  push_strings-Strings,
}

-- At `p` stand the places of the strings and behind them NULL; each place is at or above `low`.
abbrev pub Vector : (low : ℕ) → Bytes → (p : ℕ) → List (List ℕ) → Type 0
Vector low m p [] = u64_at m p ≡ 0
Vector low m p (cs ∷ strings) =
    (low ≤ u64_at m p) × CString m (u64_at m p) cs × Vector low m (p + 8) strings

word_above :
    (m m' : Bytes) (b p : ℕ) → b ≤ p → ((q : ℕ) → b ≤ q → m' q ≡ m q) → u64_at m' p ≡ u64_at m p
word_above m m' b p le same = load_le_same m m' p 8 (λ q low high. same q (omega arith))

Vector-above :
    (low : ℕ) (m m' : Bytes) (b p : ℕ) (strings : List (List ℕ))
    → b ≤ low
    → b ≤ p
    → ((q : ℕ) → b ≤ q → m' q ≡ m q)
    → Vector low m p strings
    → Vector low m' p strings
Vector-above low m m' b p [] le le' same t = word_above m m' b p le' same ∙ t
Vector-above low m m' b p (cs ∷ strings) le le' same (h, t, ts) =
    let w : u64_at m' p ≡ u64_at m p = word_above m m' b p le' same in
    (
      omega (arith, w),
      subst (λ (z : ℕ). CString m' z cs) (sym w)
          (CString-above m m' (u64_at m p) cs (λ q low'. same q (omega arith)) t),
      Vector-above low m m' b (p + 8) strings le (omega arith) same ts,
    )

push_places-Vector :
    (tmp : List ℕ) (strings : List (List ℕ)) (s : Pushed)
    → Strings s.memory tmp strings
    → From s.sp tmp
    → 8 * (length strings + 1) ≤ s.sp
    → s.sp < 2 ^ 64
    → Grown (8 * (length strings + 1)) s (push_places tmp s)
      × Vector s.sp (push_places tmp s).memory (push_places tmp s).sp strings
unfolding push_places
push_places-Vector [] [] s t f room fits =
    (push_word-Grown 0 s (omega arith) fits, push_word_load 0 s (omega arith))
push_places-Vector [] (cs ∷ strings) s t f room fits = absurd t
push_places-Vector (p ∷ tmp) [] s t f room fits = absurd t
push_places-Vector (p ∷ tmp) (cs ∷ strings) s (lt, t, ts) (h, f) room fits =
    given (push_places-Vector tmp strings s ts f (omega arith) fits) λ (g, v).
      let s1 : Pushed = push_places tmp s in
      let g1 : Grown 8 s1 (push_word p s1) =
        push_word-Grown p s1 (omega (arith, g.room)) (omega (arith, g.room)) in
      let above : (q : ℕ) → s.sp ≤ q → (push_word p s1).memory q ≡ s.memory q =
        λ q h'. g1.above q (omega (arith, g.room)) ∙ g.above q h' in
      let top : u64_at (push_word p s1).memory (push_word p s1).sp ≡ p = push_word_load p s1 lt in
      (
        record { room = omega (arith, g.room, g1.room); above = above },
        (
          omega (arith, top),
          subst (λ (z : ℕ). CString (push_word p s1).memory z cs) (sym top)
              (CString-above s.memory _ p cs (λ q low. above q (omega arith)) t),
          subst (λ (z : ℕ). Vector s.sp (push_word p s1).memory z strings) (sym g1.room)
              (Vector-above s.sp s1.memory _ s1.sp s1.sp strings (omega (arith, g.room))
                (omega arith) g1.above v),
        ),
      )

-- what a vector takes on the stack
abbrev pub vector_size : List (List ℕ) → ℕ
vector_size strings = bytes_of strings + 8 * (length strings + 1)

push_vector-Vector :
    (strings : List (List ℕ)) (s : Pushed)
    → AllNonZero strings
    → vector_size strings ≤ s.sp
    → s.sp < 2 ^ 64
    → Grown (vector_size strings) s (push_vector strings s)
      × Vector
          ((push_vector strings s).sp + 8 * (length strings + 1))
          (push_vector strings s).memory
          (push_vector strings s).sp
          strings
unfolding push_vector
push_vector-Vector strings s z room fits =
    given (push_strings-Strings strings s z (omega arith) fits) λ (g, t, f, l).
      given
        (push_places-Vector (push_strings strings s).0 strings (push_strings strings s).1 t f
          (omega (arith, g.room)) (omega (arith, g.room)))
        λ (g1, v). (
          record {
            room = omega (arith, g.room, g1.room);
            above = λ q h. g1.above q (omega (arith, g.room)) ∙ g.above q h;
          },
          subst
              (λ (z : ℕ).
                Vector z (push_vector strings s).memory (push_vector strings s).sp strings)
              (sym g1.room) v,
        )

-- k_elf_exec leaves for the program, where both vectors fit below `top`: at `argv` the places of the
-- arguments and NULL, at `envp` those of the environment, each place above the vector's end, with the
-- string there, and nothing changed from `top` on.
pub start_stack-Vector :
    (argv envp : List (List ℕ)) (top : ℕ) (m : Bytes)
    → AllNonZero argv
    → AllNonZero envp
    → vector_size argv + vector_size envp ≤ top
    → top < 2 ^ 64
    → Vector
        ((start_stack argv envp top m).argv_pointer + 8 * (length argv + 1))
        (start_stack argv envp top m).memory
        (start_stack argv envp top m).argv_pointer
        argv
      × Vector
          ((start_stack argv envp top m).envp_pointer + 8 * (length envp + 1))
          (start_stack argv envp top m).memory
          (start_stack argv envp top m).envp_pointer
          envp
      × ((start_stack argv envp top m).envp_pointer + vector_size envp + vector_size argv ≡ top)
      × ((q : ℕ) → top ≤ q → (start_stack argv envp top m).memory q ≡ m q)
unfolding start_stack
start_stack-Vector argv envp top m za ze room fits =
    let s : Pushed = record { sp = top; memory = m } in
    given (push_vector-Vector argv s za (omega arith) fits) λ (g, v).
      let a : Pushed = push_vector argv s in
      given (push_vector-Vector envp a ze (omega (arith, g.room)) (omega (arith, g.room)))
        λ (g1, v1). (
          Vector-above (a.sp + 8 * (length argv + 1)) a.memory (push_vector envp a).memory a.sp a.sp
              argv (omega arith) (omega arith) g1.above v,
          v1,
          omega (arith, g.room, g1.room),
          λ q h. g1.above q (omega (arith, g.room)) ∙ g.above q h,
        )

-- The stack pointer is rounded up: where the bytes pushed are 8 more than a multiple of 16, it stands
-- above the environment's vector, and the first word that the program pushes replaces the place of its
-- first string.
pub start_stack-push_word :
    (argv envp : List (List ℕ)) (top w : ℕ) (m : Bytes)
    → AllNonZero argv
    → AllNonZero envp
    → vector_size argv + vector_size envp + 16 ≤ top
    → top + 16 < 2 ^ 64
    → top % 16 ≡ 0
    → (vector_size argv + vector_size envp) % 16 ≡ 8
    → w < 2 ^ 64
    → let r = start_stack argv envp top m in
      let s = push_word w (record { sp = r.user_stack; memory = r.memory }) in
      (r.user_stack ≡ r.envp_pointer + 8) × (u64_at s.memory r.envp_pointer ≡ w)
unfolding start_stack
start_stack-push_word argv envp top w m za ze room fits whole odd small =
    let s : Pushed = record { sp = top; memory = m } in
    given (push_vector-Vector argv s za (omega arith) (omega arith)) λ (g, v).
      let a : Pushed = push_vector argv s in
      given (push_vector-Vector envp a ze (omega (arith, g.room)) (omega (arith, g.room)))
        λ (g1, v1).
          let e : Pushed = push_vector envp a in
          let up : align e.sp 16 ≡ e.sp + 8 =
            align_sixteen e.sp (omega (arith, g.room, g1.room)) ∙ omega (arith, g.room, g1.room) in
          let p : Pushed = record { sp = align e.sp 16; memory = e.memory } in
          let back : (push_word w p).sp ≡ e.sp = omega (
            arith,
            (push_word-Grown w p (omega (arith, up)) (omega (arith, up, g.room, g1.room))).room,
            up,
          ) in
          (
            up,
            subst (λ (z : ℕ). u64_at (push_word w p).memory z ≡ w) back (push_word_load w p small),
          )
