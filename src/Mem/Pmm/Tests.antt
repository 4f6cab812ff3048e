-- ===== src/Mem/Pmm/Tests.antt =====
-- The physical memory manager at concrete states.
use wyrm_os.Base.{ℕ, ◌≡◌, refl, true, none, some, arith, ◌==◌, if◌then◌else◌, ◌↔◌}
use wyrm_os.Base.Word.{frame_of, addr_of}
use wyrm_os.Mem.Pmm.{Pmm, mark_region, alloc, clear_frames}
use wyrm_os.Mem.Pmm.Frames.{is_free}
use wyrm_os.Mem.Pmm.Alloc.{HasRun, Taken, alloc-HasRun, alloc-none_iff, mark_region-alloc}

-- frames 1, 2, 4, 5, 6 and 64 are free
abbrev state : Pmm
state = record {
  bitmap = λ i. if i == 0 then 0x76 else if i == 1 then 1 else 0;
  size = 2;
  free_index = 0;
  initialized = true;
}

-- the state after three frames were taken: 4, 5 and 6
abbrev state' : Pmm
state' = record state { bitmap = clear_frames state.bitmap 4 3; free_index = 0 }

alloc_three : alloc state 3 ≡ some (0x4000, state')
unfolding alloc addr_of
alloc_three = refl

-- one frame is free, in the second word, where the scan starts
abbrev low : Pmm
low = record { bitmap = λ i. if i == 1 then 1 else 0; size = 2; free_index = 1; initialized = true }

alloc_two : alloc low 2 ≡ none
unfolding alloc
alloc_two = refl

alloc-HasRun_example : (q : ℕ) × HasRun state 3 q × (0x4000 ≡ addr_of q) × Taken state 3 q state'
alloc-HasRun_example = alloc-HasRun state 3 (omega arith) alloc_three

alloc-none_iff_example : (alloc low 2 ≡ none) ↔ ((q : ℕ) → HasRun low 2 q → ⊥)
alloc-none_iff_example = alloc-none_iff low 2 (omega arith)

mark_region-alloc_example :
    is_free (mark_region state' (frame_of 0x4000) 3).bitmap 5 ≡ is_free state.bitmap 5
mark_region-alloc_example = mark_region-alloc state 3 (omega arith) refl (omega arith) alloc_three 5

-- two neighbouring frames of the first word are freed, and still cannot be had
