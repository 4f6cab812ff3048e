-- ===== src/Mem/Paging/Tests.antt =====
-- A root table at 0x1000 behind the high map, with frames 8 to 15 free.
use wyrm_os.Base.{
  ℕ, ◌+◌, ◌-◌, ◌*◌, ◌/◌, ◌%◌, ◌^◌, ◌≡◌, refl, true, none, some, inl, inr, ◌==◌, arith,
  if◌then◌else◌,
}
use wyrm_os.Base.Word.{u64, page_size, frame_of, addr_of}
use wyrm_os.Mem.Pmm.{alloc}
use wyrm_os.Mem.Pmm.Frames.{is_free}
use wyrm_os.Mem.Paging.{
  Paging, layers, present, page_of, page_addr, entry, map_ex, map_pages_ex, map_region_ex, unmap,
  get_physical, set_word,
}
use wyrm_os.Mem.Paging.Walk.{leaf, Avoids}
use wyrm_os.Mem.Paging.Unmap.{unmap-get_physical, unmap-LargeAbove}
use wyrm_os.Mem.Paging.Space.{validate_pointer, free_pml}
use wyrm_os.Mem.Paging.Space.Free.{Freed, free_pml-Holds}
use wyrm_os.Mem.Paging.Space.Check.{Checked, validate_pointer-Checked}
use wyrm_os.Mem.Paging.Map.{map_ex-get_physical, map_ex_kept, map_region_ex-map_pages_ex}

abbrev base : ℕ
base = 0xffff800000000000

abbrev empty : Paging
empty = record {
  pml = base + 0x1000;
  root_pml = base + 0x1000;
  high_map = base;
  cr3 = 0x1000;
  memory = λ a. 0;
  pmm = record {
    bitmap = λ i. if i == 0 then 0xff00 else 0;
    size = 1;
    free_index = 0;
    initialized = true;
  };
}

abbrev address : ℕ
address = 0x40302010

abbrev one : Paging
unfolding map_ex layers entry alloc frame_of addr_of page_of page_addr set_word
one = elim (map_ex address 0x7000 4 empty) [ none ↦ empty | some s ↦ s ]

one-get_physical : get_physical address one ≡ some 0x7010
unfolding get_physical map_ex layers entry alloc frame_of addr_of page_of page_addr set_word
one-get_physical = refl

map_ex-get_physical_example :
    get_physical address one
    ≡ some (
        if present (empty.memory (base + 0xa810))
        then u64 (page_addr (page_of (empty.memory (base + 0xa810))) + address % page_size)
        else 0x7000 + address % page_size)
unfolding map_ex layers entry alloc frame_of addr_of page_of page_addr set_word
map_ex-get_physical_example =
    map_ex-get_physical address 0x7000 4 (base + 0xa810) empty one refl (omega arith) (omega arith)
      (omega arith) (refl, (refl, (refl, (refl, tt)))) refl
      (λ e. omega arith, (λ e. omega arith, (λ e. omega arith, tt)))

abbrev two : Paging
unfolding map_ex layers entry alloc frame_of addr_of page_of page_addr set_word
two = elim (map_ex 0x5000 0 5 one) [ none ↦ one | some s ↦ s ]

map_ex_kept_example : get_physical address two ≡ some 0x7010
unfolding map_ex layers entry alloc frame_of addr_of page_of page_addr set_word two get_physical
map_ex_kept_example = map_ex_kept 0x5000 0 5 one two address 0x7010 refl refl (λ e. omega arith)

map_region_ex-map_pages_ex_example :
    map_region_ex 0x4000 0x6000 0 0 empty
    ≡ map_pages_ex 0x4000 (2 ^ 52 - (0x6000 - 0x4000) / page_size) 0 0 empty
map_region_ex-map_pages_ex_example =
    map_region_ex-map_pages_ex 0x4000 0x6000 0 0 empty (omega arith) (omega arith) (omega arith)
      (omega arith) (omega arith)

unmap-get_physical_example :
    (get_physical address (unmap address one) ≡ some 0)
    × ((u : ℕ)
        → Avoids (leaf base one.memory (layers address) one.pml) base one.memory (layers u) one.pml
        → get_physical u (unmap address one) ≡ get_physical u one)
unfolding map_ex layers entry alloc frame_of addr_of page_of page_addr set_word
unmap-get_physical_example = unmap-get_physical address one (refl, (refl, (refl, (refl, tt))))

-- Under the table of `one`'s third level stands a large page at 0x200000, with the word 7 in it.
abbrev huge : Paging
huge = record one {
  memory = λ a.
      if a == base + 0x9008 then 0x200081 else if a == base + 0x200810 then 7 else one.memory a;
}

unmap-LargeAbove_example :
    (get_physical address (unmap address huge) ≡ get_physical address huge)
    × ((unmap address huge).memory (base + 0x200810) ≡ 0)
unfolding map_ex layers entry alloc frame_of addr_of page_of page_addr set_word
unmap-LargeAbove_example =
    unmap-LargeAbove address (base + 0x200810) huge refl (refl, (refl, (refl, (refl, tt))))
      (inr (inr (inl refl))) (λ e. omega arith, (λ e. omega arith, (λ e. omega arith, tt)))

validate_pointer-Checked_example :
    Checked
      (address / page_size * page_size)
      ((address + 0xfe0) / page_size - address / page_size + 1)
      one
      (validate_pointer 9 address 0xfe0 one)
validate_pointer-Checked_example =
    validate_pointer-Checked 9 address 0xfe0 one (omega arith) (omega arith)

-- `one` as the process that owns it sees it: every entry has the bit of a user
abbrev mine : Paging
unfolding map_ex layers entry alloc frame_of addr_of page_of page_addr set_word
mine = elim (map_ex address 0x7000 5 empty) [ none ↦ empty | some s ↦ s ]

free_pml-Holds_example :
    (is_free (free_pml (base + 0x1000) mine).pmm.bitmap 7 ≡ true)
    × Freed mine (free_pml (base + 0x1000) mine)
unfolding map_ex layers entry alloc frame_of addr_of page_of page_addr set_word
free_pml-Holds_example =
    free_pml-Holds (base + 0x1000) address 7 mine refl (omega arith)
      (omega arith, refl, (omega arith, refl, (omega arith, refl, (omega arith, refl, tt))))
      (inr (inr (inr (inl refl))))
