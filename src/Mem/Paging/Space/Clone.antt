-- ===== src/Mem/Paging/Space/Clone.antt =====
-- k_mem_paging_clone_pml of an address space in which the process owns nothing.
use wyrm_os.Base.{
  ℕ, zero, suc, ◌+◌, ◌≡◌, refl, false, some, ◌==◌, if◌then◌else◌, Option, Bool-cases, inl, inr,
  given,
}
use wyrm_os.Mem.Paging.{Paging, slot, set_word}
use wyrm_os.Mem.Paging.Space.{owned, clone_entries, clone_table, clone_pml}

abbrev pub NothingOwned : Paging → Type 0
NothingOwned s = (a : ℕ) → owned (s.memory a) ≡ false

set_word-NothingOwned :
    (a b : ℕ) (s : Paging) → NothingOwned s → NothingOwned (set_word a (s.memory b) s)
unfolding set_word
set_word-NothingOwned a b s none_owned c = elim (Bool-cases (c == a)) [
  | inl here ↦ rw here (none_owned b)
  | inr there ↦ rw there (none_owned c)
]

clone_entries-NothingOwned :
    (deeper : ℕ → ℕ → Paging → Option Paging) (left i src dst : ℕ) (s : Paging)
    → NothingOwned s
    → (s' : Paging) × (clone_entries deeper left i src dst s ≡ some s')
      × NothingOwned s'
      × (s'.pmm ≡ s.pmm)
unfolding clone_entries set_word
clone_entries-NothingOwned deeper zero i src dst s none_owned = (s, refl, none_owned, refl)
clone_entries-NothingOwned deeper (suc left) i src dst s none_owned =
    let s1 : Paging = set_word (slot dst i) (s.memory (slot src i)) s in
    let still : NothingOwned s1 = set_word-NothingOwned (slot dst i) (slot src i) s none_owned in
    given (clone_entries-NothingOwned deeper left (i + 1) src dst s1 still)
      λ (s', e, f, g). (s', rw (still (slot src i)) e, f, g)

-- It needs no frame.
pub clone_pml-NothingOwned :
    (pml copy : ℕ) (s : Paging)
    → NothingOwned s
    → (s' : Paging) × (clone_pml pml copy s ≡ some s') × NothingOwned s' × (s'.pmm ≡ s.pmm)
unfolding clone_pml clone_table
clone_pml-NothingOwned pml copy s none_owned =
    clone_entries-NothingOwned (clone_table 3) 512 0 (if pml == 0 then s.root_pml else pml) copy s
      none_owned
