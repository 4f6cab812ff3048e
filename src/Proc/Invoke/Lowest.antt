-- ===== src/Proc/Invoke/Lowest.antt =====
-- The signal that the loop finds.
use wyrm_os.Base.{
  ℕ, zero, suc, ◌+◌, ◌-◌, ◌<◌, ◌≤◌, ◌≡◌, Bool, true, false, Option, none, some, arith, Bool-cases,
  inl, inr, ◌==◌,
}
use mathlib.Core.Path.{subst}
use wyrm_os.Proc.Invoke.{some_bit, first_pending}

pub some_bit-none :
    (left n k : ℕ) (b : ℕ → Bool) → some_bit left n b ≡ false → n ≤ k → k < n + left → b k ≡ false
unfolding some_bit
some_bit-none zero n k b e low high = absurd (omega arith)
some_bit-none (suc left) n k b e low high = elim (Bool-cases (b n)) [
  | inl set ↦ absurd (cc (rw set at e))
  | inr clear ↦ elim (Bool-cases (n == k)) [
    | inl here ↦ subst (λ (z : ℕ). b z ≡ false) (ground arith) clear
    | inr there ↦ some_bit-none left (n + 1) k b (rw clear at e) (ground arith) (omega arith)
  ]
]

-- The loop over the signals from `n` to `top` finds none, or the lowest.
pub data Lowest (n top : ℕ) (b : ℕ → Bool) : Option ℕ → Type 0 where
  nothing : ((k : ℕ) → n ≤ k → k < top → b k ≡ false) → Lowest n top b none
  lowest :
      (sig : ℕ)
      → n ≤ sig
      → sig < top
      → b sig ≡ true
      → ((k : ℕ) → n ≤ k → k < sig → b k ≡ false)
      → Lowest n top b (some sig)

pub first_pending-Lowest :
    (left n : ℕ) (b : ℕ → Bool) → n + left ≤ 32 → Lowest n (n + left) b (first_pending left n b)
unfolding first_pending
first_pending-Lowest zero n b small = nothing (λ k low high. absurd (omega arith))
first_pending-Lowest (suc left) n b small = elim (Bool-cases (some_bit (32 - n) n b)) [
  | inr none_left ↦
      rw none_left
        (nothing (λ k low high. some_bit-none (32 - n) n k b none_left low (omega arith)))
  | inl left_over ↦ elim (Bool-cases (b n)) [
    | inl set ↦
        rw (left_over, set)
          (lowest n (omega arith) (omega arith) set (λ k low high. absurd (omega arith)))
    | inr clear ↦
        rw (left_over, clear)
          (go clear (first_pending left (n + 1) b)
            (first_pending-Lowest left (n + 1) b (omega arith)))
  ]
]
  where
    later : b n ≡ false → (k : ℕ) → n ≤ k → ((n + 1 ≤ k → b k ≡ false)) → b k ≡ false
    later clear k low rest = elim (Bool-cases (n == k)) [
      | inl here ↦ subst (λ (z : ℕ). b z ≡ false) (ground arith) clear
      | inr there ↦ rest (ground arith)
    ]

    go :
        (b n ≡ false)
        → (o : Option ℕ) → Lowest (n + 1) (n + 1 + left) b o
        → Lowest n (n + suc left) b o
    go clear none (nothing h) =
        nothing (λ k low high. later clear k low (λ low'. h k low' (omega arith)))
    go clear (some _) (lowest s low high set h) =
        lowest s (omega arith) (omega arith) set (λ k l u. later clear k l (λ l'. h k l' u))
