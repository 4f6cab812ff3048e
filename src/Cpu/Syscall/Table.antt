-- ===== src/Cpu/Syscall/Table.antt =====
-- The table of kernel/cpu/syscall.c.
use wyrm_os.Base.{
  ℕ, ◌≡◌, refl, inl, inr, true, false, none, some, List, [], ◌∷◌, leb, ◌==◌, Bool-cases,
}
use wyrm_os.Proc.Process.{mem}
use wyrm_os.Cpu.Syscall.{Kernel, State, minus_one, syscall_table, syscall_amount, k_invoke_syscall}

-- The numbers that wyrm/syscall.h gives, but SYS_CLOSE, 11
abbrev pub served : List ℕ
served = 0 ∷ 1 ∷ 2 ∷ 3 ∷ 4 ∷ 5 ∷ 6 ∷ 7 ∷ 8 ∷ 9 ∷ 10 ∷ 12 ∷ 13 ∷ 14 ∷ 0xFF ∷ []

abbrev Others : ℕ → List ℕ → Type 0
Others n [] = Unit
Others n (y ∷ ys) = ((n == y) ≡ false) × Others n ys

mem-Others : (n : ℕ) (ys : List ℕ) → mem n ys ≡ false → Others n ys
mem-Others n [] out = tt
mem-Others n (y ∷ ys) out = elim (Bool-cases (n == y)) [
  | inl e ↦ absurd (true_false (rw e at out))
  | inr e ↦ (e, mem-Others n ys (rw e at out))
]
  where
    true_false : true ≡ false → ⊥
    true_false q = cc

module _ {Node S : Type 0} (k : Kernel Node S) where
  syscall_table-none : (rounds n : ℕ) → mem n served ≡ false → syscall_table k rounds n ≡ none
  unfolding syscall_table
  syscall_table-none rounds n out =
      let (
        a0,
        (
          a1,
          (a2, (a3, (a4, (a5, (a6, (a7, (a8, (a9, (a10, (a12, (a13, (a14, (a255, done))))))))))))),
        ),
      ) =
        mem-Others n served out in
      rw (syscall_table, a0, a1, a2, a3, a4, a5, a6, a7, a8, a9, a10, a12, a13, a14, a255) refl

  -- k_invoke_syscall of a number that is not in the table, SYS_CLOSE among them, returns -1 and
  -- changes nothing.
  pub k_invoke_syscall-served :
      (rounds n a b c d e f : ℕ) (s : State Node S)
      → mem n served ≡ false
      → k_invoke_syscall k rounds n a b c d e f s ≡ some (minus_one, s)
  unfolding k_invoke_syscall
  k_invoke_syscall-served rounds n a b c d e f s out = elim (Bool-cases (leb syscall_amount n)) [
    | inl q ↦ rw (k_invoke_syscall, q) refl
    | inr q ↦ rw (k_invoke_syscall, q, syscall_table-none rounds n out) refl
  ]
