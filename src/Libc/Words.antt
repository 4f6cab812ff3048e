-- ===== src/Libc/Words.antt =====
-- Numbers of several bytes in a byte memory, the lowest byte first.
use wyrm_os.Base.{
  ℕ, zero, suc, ◌+◌, ◌*◌, ◌/◌, ◌%◌, ◌^◌, ◌≤◌, ◌<◌, ◌≡◌, ◌⊎◌, ◌∙◌, inl, inr, refl, true, false, ◌==◌,
  arith,
}
use native.Mathlib.Nat.{pow-suc}
use wyrm_os.Libc.Bytes.{Bytes, store, SameBut}

unfoldable pub load_le : Bytes → (p n : ℕ) → ℕ
load_le m p zero = 0
load_le m p (suc n) = m p + 256 * load_le m (p + 1) n

unfoldable pub store_le : Bytes → (p n v : ℕ) → Bytes
store_le m p zero v = m
store_le m p (suc n) v = store_le (store m p (v % 256)) (p + 1) n (v / 256)

-- a store changes no other byte
pub store_le-SameBut : (m : Bytes) (p n v : ℕ) → SameBut p n m (store_le m p n v)
unfolding store_le
store_le-SameBut m p zero v q out = refl
store_le-SameBut m p (suc n) v q out =
    let rest : (q < p + 1) ⊎ (p + 1 + n ≤ q) = elim out [
      | inl a ↦ inl (omega arith)
      | inr b ↦ inr (omega arith)
    ] in
    let ne : (q == p) ≡ false = ground arith in
    store_le-SameBut (store m p (v % 256)) (p + 1) n (v / 256) q rest ∙ rw ne refl

-- what is loaded depends on the bytes loaded
pub load_le_same :
    (m m' : Bytes) (p n : ℕ)
    → ((q : ℕ) → p ≤ q → q < p + n → m' q ≡ m q)
    → load_le m' p n ≡ load_le m p n
unfolding load_le
load_le_same m m' p zero same = refl
load_le_same m m' p (suc n) same =
    let here : m' p ≡ m p = same p (omega arith) (omega arith) in
    let rest : load_le m' (p + 1) n ≡ load_le m (p + 1) n =
      load_le_same m m' (p + 1) n (λ q low high. same q (omega arith) (omega arith)) in
    rw (here, rest) refl

-- a number that is stored is loaded, as far as the bytes hold it
pub load_le-store_le : (m : Bytes) (p n v : ℕ) → v < 256 ^ n → load_le (store_le m p n v) p n ≡ v
unfolding load_le store_le
load_le-store_le m p zero v fits = omega arith
load_le-store_le m p (suc n) v fits =
    let m1 : Bytes = store m p (v % 256) in
    let self : (p == p) ≡ true = ground arith in
    let here : store_le m1 (p + 1) n (v / 256) p ≡ v % 256 =
      store_le-SameBut m1 (p + 1) n (v / 256) p (inl (omega arith)) ∙ rw self refl in
    let rest : load_le (store_le m1 (p + 1) n (v / 256)) (p + 1) n ≡ v / 256 =
      load_le-store_le m1 (p + 1) n (v / 256) (omega (arith, pow-suc 256 n)) in
    rw (here, rest) (omega arith)
