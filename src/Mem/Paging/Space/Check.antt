-- ===== src/Mem/Paging/Space/Check.antt =====
-- k_mem_validate_pointer: which pages it looks at.
use wyrm_os.Base.{
  ℕ, zero, suc, ◌+◌, ◌-◌, ◌*◌, ◌/◌, ◌^◌, ◌≤◌, ◌<◌, ◌≡◌, ◌≢◌, ◌⊎◌, ◌∙◌, ap, refl, true, false,
  Option, some, leb, ◌==◌, arith, Bool-cases, inl, inr, if◌then◌else◌,
}
use wyrm_os.Base.Word.{u64, page_size, frame_of, addr_of}
use wyrm_os.Mem.Paging.{Paging, get_physical}
use wyrm_os.Mem.Paging.Walk.{walk_of, get_physical-walk}
use wyrm_os.Mem.Paging.Space.{validate_loop, validate_pointer}

-- Either the `n` pages from `first` on all have translations and the answer is 1, or one of them has
-- none and the answer is 0.
abbrev pub Checked : (first n : ℕ) → Paging → Option ℕ → Type 0
Checked first n s r =
    (((k : ℕ) → k < n → get_physical (first + k * page_size) s ≢ some 0) × (r ≡ some 1))
    ⊎ ((k : ℕ) × (k < n) × (get_physical (first + k * page_size) s ≡ some 0) × (r ≡ some 0))

-- a page with a translation in front
Checked-suc :
    (first n : ℕ) (s : Paging) (r : Option ℕ)
    → get_physical first s ≢ some 0
    → Checked (first + page_size) n s r
    → Checked first (suc n) s r
Checked-suc first n s r here (inl (all, e)) = inl (
  λ k lt. elim (Bool-cases (k == 0)) [
    | inl z ↦ let same : first + k * page_size ≡ first = ground arith in rw same here
    | inr z ↦
        let same : first + k * page_size ≡ first + page_size + (k - 1) * page_size = ground arith in
        rw same (all (k - 1) (ground arith))
  ],
  e,
)
Checked-suc first n s r here (inr (k, lt, z, e)) =
    let same : first + (k + 1) * page_size ≡ first + page_size + k * page_size = omega arith in
    inr (k + 1, omega arith, rw same z, e)

validate_loop-Checked :
    (n rounds first last : ℕ) (s : Paging)
    → n + 1 ≤ rounds
    → last + page_size ≡ first + n * page_size
    → last + page_size < 2 ^ 64
    → Checked first n s (validate_loop rounds first last s)
unfolding validate_loop
validate_loop-Checked n zero first last s enough e fits = absurd (omega arith)
validate_loop-Checked zero (suc rounds) first last s enough e fits =
    let past : leb first last ≡ false = ground arith in
    inl (λ k lt. absurd (omega arith), rw past refl)
validate_loop-Checked (suc n) (suc rounds) first last s enough e fits =
    let within : leb first last ≡ true = ground arith in
    let next : u64 (first + page_size) ≡ first + page_size = omega arith in
    rw (within, get_physical-walk first s, next)
      (elim (Bool-cases (walk_of s first == 0)) [
        | inl z ↦
            let none_here : walk_of s first ≡ 0 = ground arith in
            rw z (
              inr (
                0,
                omega arith,
                let same : first + 0 * page_size ≡ first = omega arith in
                    rw same (get_physical-walk first s ∙ ap (λ (p : ℕ). some p) none_here),
                refl,
              ))
        | inr z ↦ rw z (
            Checked-suc first n s _ (λ q. absurd (ground (arith, get_physical-walk first s)))
              (validate_loop-Checked n rounds (first + page_size) last s (omega arith) (omega arith)
                fits))
      ])

-- k_mem_validate_pointer of a range that does not reach the last page of memory ends, and is 1
-- exactly where all pages have translations from that of the first byte to that of the byte behind
-- the last one, which is one page too many for a range that ends with its page.
pub validate_pointer-Checked :
    (rounds start size : ℕ) (s : Paging)
    → start + size + page_size < 2 ^ 64
    → (start + size) / page_size - start / page_size + 2 ≤ rounds
    → Checked
        (start / page_size * page_size)
        ((start + size) / page_size - start / page_size + 1)
        s
        (validate_pointer rounds start size s)
unfolding validate_pointer frame_of addr_of
validate_pointer-Checked rounds start size s fits enough =
    let first : u64 (start / 2 ^ 12 * 2 ^ 12) ≡ start / page_size * page_size = omega arith in
    let end : (if size == 0 then start else u64 (start + size)) ≡ start + size = ground arith in
    let last : u64 ((start + size) / 2 ^ 12 * 2 ^ 12) ≡ (start + size) / page_size * page_size =
      omega arith in
    rw (end, first, last)
      (validate_loop-Checked ((start + size) / page_size - start / page_size + 1) rounds
        (start / page_size * page_size) ((start + size) / page_size * page_size) s (omega arith)
        (omega arith) (omega arith))
