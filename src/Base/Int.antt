-- ===== src/Base/Int.antt =====
-- Integers over the native naturals, as the results of comparisons and of numeric conversions.
use Prim.Native.Nat.{ℕ, zero, suc, ◌-◌}
use wyrm_os.Base.Tests.{leb, if◌then◌else◌}

-- `pos n` is n, `negsuc n` is -(n + 1).
pub data ℤ : Type 0 where
  pos : ℕ → ℤ
  negsuc : ℕ → ℤ

-- the difference of two naturals
abbrev pub diff : ℕ → ℕ → ℤ
diff a b = if leb b a then pos (a - b) else negsuc (b - a - 1)

abbrev pub neg : ℤ → ℤ
neg (pos zero) = pos zero
neg (pos (suc n)) = negsuc n
neg (negsuc n) = pos (suc n)
