-- ===== src/Libc/Memory.antt =====
-- lib/libc/string/memory.c. Pointers are not null and blocks do not wrap around the address space.
use wyrm_os.Base.{
  ℕ, zero, suc, ◌+◌, ◌-◌, ◌%◌, ◌≤◌, ◌<◌, ◌≡◌, ◌≢◌, ◌∙◌, sym, ◌⊎◌, inl, inr, refl, true, ◌==◌, ltb,
  leb, ◌&&◌, if◌then◌else◌, arith, Bool-cases, ℤ, pos, negsuc,
}
use wyrm_os.Libc.Bytes.{Bytes, store}

-- The upward loop from `i` on, `left` rounds to go.
copy_up : Bytes → (dest src left i : ℕ) → Bytes
copy_up m dest src zero i = m
copy_up m dest src (suc left) i = copy_up (store m (dest + i) (m (src + i))) dest src left (i + 1)

-- The downward loop from `i` on.
copy_down : Bytes → (dest src i : ℕ) → Bytes
copy_down m dest src zero = m
copy_down m dest src (suc i) = copy_down (store m (dest + i) (m (src + i))) dest src i

pub memcpy : Bytes → (dest src n : ℕ) → ℕ × Bytes
unfolding copy_up
memcpy m dest src n = (dest, copy_up m dest src n 0)

pub memmove : Bytes → (dest src n : ℕ) → ℕ × Bytes
unfolding copy_up copy_down
memmove m dest src n =
    if ltb dest src
    then (dest, copy_up m dest src n 0)
    else if ltb src dest
    then (dest, copy_down m dest src n)
    else (dest, m)

set_up : Bytes → (s c left i : ℕ) → Bytes
set_up m s c zero i = m
set_up m s c (suc left) i = set_up (store m (s + i) (c % 256)) s c left (i + 1)

pub memset : Bytes → (s c n : ℕ) → ℕ × Bytes
unfolding set_up
memset m s c n = (s, set_up m s c n 0)

pub memcmp : Bytes → (s1 s2 n : ℕ) → ℤ
memcmp m s1 s2 zero = pos 0
memcmp m s1 s2 (suc n) =
    if m s1 == m s2
    then memcmp m (s1 + 1) (s2 + 1) n
    else if ltb (m s1) (m s2)
    then negsuc 0
    else pos 1

-- What a copy of `n` bytes should do: the bytes at `dest` are those that were at `src`, the others
-- stay.
abbrev pub copied : Bytes → (dest src n : ℕ) → Bytes
copied m dest src n q = if leb dest q && ltb q (dest + n) then m (src + (q - dest)) else m q

copy_up_lem :
    (m : Bytes) (dest src left i : ℕ)
    → (dest ≤ src) ⊎ (src + i + left ≤ dest + i)
    → (q : ℕ)
    → copy_up m dest src left i q
      ≡ (if leb (dest + i) q && ltb q (dest + i + left) then m (src + (q - dest)) else m q)
unfolding copy_up
copy_up_lem m dest src zero i safe q = ground arith
copy_up_lem m dest src (suc left) i safe q =
    copy_up_lem (store m (dest + i) (m (src + i))) dest src left (i + 1) (ground arith) q
    ∙ ground arith

copy_down_lem :
    (m : Bytes) (dest src i : ℕ)
    → src ≤ dest
    → (q : ℕ) → copy_down m dest src i q ≡ copied m dest src i q
unfolding copy_down
copy_down_lem m dest src zero safe q = ground arith
copy_down_lem m dest src (suc i) safe q =
    copy_down_lem (store m (dest + i) (m (src + i))) dest src i safe q ∙ ground arith

-- memmove copies the block whether or not the two blocks overlap, changes nothing else and returns
-- the destination.
pub memmove-copied :
    (m : Bytes) (dest src n : ℕ)
    → ((memmove m dest src n).0 ≡ dest)
      × ((q : ℕ) → (memmove m dest src n).1 q ≡ copied m dest src n q)
unfolding memmove
memmove-copied m dest src n = elim (Bool-cases (ltb dest src)) [
  | inl up ↦ rw up (refl, λ q. copy_up_lem m dest src n 0 (ground arith) q ∙ ground arith)
  | inr not_up ↦ elim (Bool-cases (ltb src dest)) [
    | inl down ↦ rw (not_up, down) (refl, λ q. copy_down_lem m dest src n (ground arith) q)
    | inr same ↦ rw (not_up, same) (refl, λ q. ground arith)
  ]
]

-- memcpy does the same where the destination does not begin inside the source block behind its
-- first byte.
pub memcpy-memmove :
    (m : Bytes) (dest src n : ℕ)
    → (dest ≤ src) ⊎ (src + n ≤ dest)
    → (q : ℕ) → (memcpy m dest src n).1 q ≡ (memmove m dest src n).1 q
unfolding memcpy
memcpy-memmove m dest src n safe q =
    copy_up_lem m dest src n 0 (ground arith) q
    ∙ (ground arith ∙ sym ((memmove-copied m dest src n).1 q))

set_up_lem :
    (m : Bytes) (s c left i q : ℕ)
    → set_up m s c left i q ≡ (if leb (s + i) q && ltb q (s + i + left) then c % 256 else m q)
unfolding set_up
set_up_lem m s c zero i q = ground arith
set_up_lem m s c (suc left) i q =
    set_up_lem (store m (s + i) (c % 256)) s c left (i + 1) q ∙ ground arith

-- memset sets exactly the `n` bytes at `s` to the low byte of `c`, and returns `s`.
pub memset-within :
    (m : Bytes) (s c n : ℕ)
    → ((memset m s c n).0 ≡ s)
      × ((q : ℕ) → (memset m s c n).1 q ≡ (if leb s q && ltb q (s + n) then c % 256 else m q))
unfolding memset
memset-within m s c n = (refl, λ q. set_up_lem m s c n 0 q ∙ ground arith)

-- the blocks agree up to `k` and differ there
abbrev pub Differ : Bytes → (s1 s2 k : ℕ) → Type 0
Differ m s1 s2 k = ((j : ℕ) → j < k → m (s1 + j) ≡ m (s2 + j)) × (m (s1 + k) ≢ m (s2 + k))

-- memcmp is 0 exactly where the blocks agree; otherwise its sign is the order of the first two bytes
-- that differ.
pub memcmp-Differ :
    (m : Bytes) (s1 s2 n : ℕ)
    → ((memcmp m s1 s2 n ≡ pos 0) × ((j : ℕ) → j < n → m (s1 + j) ≡ m (s2 + j)))
      ⊎ ((k : ℕ) × (k < n)
          × Differ m s1 s2 k
          × (memcmp m s1 s2 n ≡ (if ltb (m (s1 + k)) (m (s2 + k)) then negsuc 0 else pos 1)))
unfolding memcmp
memcmp-Differ m s1 s2 zero = inl (refl, λ j lt. absurd (omega arith))
memcmp-Differ m s1 s2 (suc n) = elim (Bool-cases (m s1 == m s2)) [
  | inr ne ↦ inr (0, omega arith, (λ j lt. absurd (omega arith), ground arith), ground arith)
  | inl eq ↦ elim (memcmp-Differ m (s1 + 1) (s2 + 1) n) [
    | inl (e, all) ↦ inl (ground arith, at_zero m s1 s2 n eq all)
    | inr (k, lt, (all, ne), e) ↦ inr (
      suc k,
      omega arith,
      (at_zero m s1 s2 k eq all, rw (next s1 k, next s2 k) ne),
      rw (eq, next s1 k, next s2 k) e,
    )
  ]
]
  where
    next : (s k : ℕ) → s + suc k ≡ s + 1 + k
    next s k = omega arith

    at_zero :
        (m : Bytes) (s1 s2 k : ℕ)
        → (m s1 == m s2) ≡ true
        → ((j : ℕ) → j < k → m (s1 + 1 + j) ≡ m (s2 + 1 + j))
        → (j : ℕ) → j < suc k
        → m (s1 + j) ≡ m (s2 + j)
    at_zero m s1 s2 k eq all zero lt = ground arith
    at_zero m s1 s2 k eq all (suc j) lt = grind (arith, all j (omega arith))
