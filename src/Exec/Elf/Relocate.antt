-- ===== src/Exec/Elf/Relocate.antt =====
-- __k_elf_relocate: what a relocation writes.
use wyrm_os.Base.{
  ℕ, ◌+◌, ◌-◌, ◌%◌, ◌^◌, ◌<◌, ◌≡◌, ◌⊎◌, ◌∙◌, ap, inl, inr, refl, sym, Bool, true, false, not, ◌&&◌,
  some, List, ◌==◌, arith, Bool-cases, Option-cases,
}
use mathlib.Core.Path.{subst}
use wyrm_os.Base.Word.{u64}
use wyrm_os.Libc.Bytes.{Bytes, SameBut}
use wyrm_os.Libc.Words.{store_le-SameBut, load_le-store_le}
use wyrm_os.Symbols.{Symbol}
use wyrm_os.Exec.Elf.{Rela, u32_at, u64_at, sh_info, elf_section, section_data}
use wyrm_os.Exec.Elf.Loading.{
  r_type, r_sym, relocated_value, patch, relocate, unresolved, shn_undef,
}

-- What the types R_X86_64_NONE, R_X86_64_64, R_X86_64_PC32 and R_X86_64_32 ask for: nothing, the
-- value in 64 bits, the value relative to the address, and the value, both in 32 bits; nothing else
-- changes.
abbrev pub Patched : (type addr value : ℕ) → Bytes → Bytes → Type 0
Patched type addr value m m' =
    ((type ≡ 0) × (m' ≡ m))
    ⊎ ((type ≡ 1) × (u64_at m' addr ≡ u64 value) × SameBut addr 8 m m')
    ⊎ ((type ≡ 2) × ((u32_at m' addr + addr) % 2 ^ 32 ≡ value % 2 ^ 32) × SameBut addr 4 m m')
    ⊎ ((type ≡ 10) × (u32_at m' addr ≡ value % 2 ^ 32) × SameBut addr 4 m m')

pow_four : 256 ^ 4 ≡ 2 ^ 32
pow_four = refl

relative : (v a : ℕ) → a < 2 ^ 64 → (u64 (u64 v + (2 ^ 64 - a)) % 2 ^ 32 + a) % 2 ^ 32 ≡ v % 2 ^ 32
relative v a lt = omega arith

patch-Patched :
    (m : Bytes) (addr value : ℕ) (rela : Rela)
    → addr < 2 ^ 64
    → ((patch m addr value rela).0 ≡ true)
    → Patched (r_type rela.r_info) addr (value + rela.r_addend) m (patch m addr value rela).1
unfolding patch
patch-Patched m addr value rela lt good =
    let type : ℕ = r_type rela.r_info in
    elim (Bool-cases (type == 0)) [
      | inl e ↦ rw e (inl (ground arith, refl))
      | inr e ↦ elim (Bool-cases (type == 1)) [
        | inl e1 ↦
            rw (e, e1)
              (inr (
                inl (
                  ground arith,
                  load_le-store_le m addr 8 _ (omega arith),
                  store_le-SameBut m addr 8 _,
                )))
        | inr e1 ↦ elim (Bool-cases (type == 2)) [
          | inl e2 ↦
              rw (e, e1, e2)
                (inr (
                  inr (
                    inl (
                      ground arith,
                      rw
                          (load_le-store_le m addr 4
                            (u64 (u64 (value + rela.r_addend) + (2 ^ 64 - addr)) % 2 ^ 32)
                            (omega arith))
                          (relative (value + rela.r_addend) addr lt),
                      store_le-SameBut m addr 4 _,
                    ))))
          | inr e2 ↦ elim (Bool-cases (type == 10)) [
            | inl e3 ↦
                rw (e, e1, e2, e3)
                  (inr (
                    inr (
                      inr (
                        ground arith,
                        load_le-store_le m addr 4 (u64 (value + rela.r_addend) % 2 ^ 32)
                              (omega arith)
                            ∙ omega arith,
                        store_le-SameBut m addr 4 _,
                      ))))
            | inr e3 ↦ absurd (cc (rw (e, e1, e2, e3) at good))
          ]
        ]
      ]
    ]

patch-false :
    (m : Bytes) (addr value : ℕ) (rela : Rela)
    → ((patch m addr value rela).0 ≡ false)
    → (patch m addr value rela).1 ≡ m
unfolding patch
patch-false m addr value rela bad = ground arith

section_data-lt : (m : Bytes) (elf s offset : ℕ) → section_data m elf s offset < 2 ^ 64
unfolding section_data
section_data-lt m elf s offset = omega arith

-- A successful __k_elf_relocate finds the target section and the value of the symbol, and writes what
-- the type of the relocation asks for; one that fails changes nothing.
pub relocate-Patched :
    (k : ℕ) (kernel : List Symbol) (m : Bytes) (elf sect : ℕ) (rela : Rela) (good : Bool)
    (m' : Bytes)
    → relocate k kernel m elf sect rela ≡ some (good, m')
    → ((good ≡ true)
        × ((target : ℕ) × (value : ℕ) × (elf_section m elf (sh_info m sect) ≡ some target)
            × (relocated_value k kernel m elf sect rela ≡ some value)
            × Patched
                (r_type rela.r_info)
                (section_data m elf target rela.r_offset)
                (value + rela.r_addend)
                m
                m'))
      ⊎ ((good ≡ false) × (m' ≡ m))
unfolding relocate
relocate-Patched k kernel m elf sect rela good m' e =
    elim (Option-cases (elf_section m elf (sh_info m sect))) [
      | inl n ↦ absurd (cc (rw n at e))
      | inr (target, n) ↦ elim (Option-cases (relocated_value k kernel m elf sect rela)) [
        | inl n' ↦ absurd (cc (rw (n, n') at e))
        | inr (value, n') ↦
            elim (Bool-cases (not (r_sym rela.r_info == shn_undef) && (value == unresolved))) [
              | inl u ↦
                  let same : ◌≡◌ {A = Bool × Bytes} (false, m) (good, m') =
                    cc (rw (n, n', u) at e) in
                  inr (
                    sym (ap (λ (x : Bool × Bytes). x.0) same),
                    sym (ap (λ (x : Bool × Bytes). x.1) same),
                  )
              | inr u ↦
                  let a : ℕ = section_data m elf target rela.r_offset in
                  let same : patch m a value rela ≡ (good, m') = cc (rw (n, n', u) at e) in
                  let done : (patch m a value rela).0 ≡ good =
                    ap (λ (x : Bool × Bytes). x.0) same in
                  let made : (patch m a value rela).1 ≡ m' = ap (λ (x : Bool × Bytes). x.1) same in
                  elim (Bool-cases good) [
                    | inl t ↦ inl (
                      t,
                      (
                        target,
                        value,
                        n,
                        n',
                        subst
                            (λ (z : Bytes).
                              Patched (r_type rela.r_info) a (value + rela.r_addend) m z)
                            made
                            (patch-Patched m a value rela
                              (section_data-lt m elf target rela.r_offset) (done ∙ t)),
                      ),
                    )
                    | inr f ↦ inr (f, sym made ∙ patch-false m a value rela (done ∙ f))
                  ]
            ]
      ]
    ]
