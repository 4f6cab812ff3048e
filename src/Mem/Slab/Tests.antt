-- ===== src/Mem/Slab/Tests.antt =====
-- A page with a slab of 128 bytes, and runs from an empty heap.
use wyrm_os.Base.{
  ℕ, ◌+◌, ◌-◌, ◌/◌, ◌^◌, ◌≡◌, ◌≢◌, refl, none, some, [], ◌∷◌, ◌==◌, if◌then◌else◌, arith,
}
use wyrm_os.Base.Fail.{◌>>=◌}
use wyrm_os.Base.Word.{page_size, pages, align}
use wyrm_os.Mem.Heap.{
  Heap, min_slab, big_slab, heap_start, slab_magic, slab_header, free_at, slab_for_size, bit_length,
  make_slab, tail, insert_slab, kmalloc, kfree, sbrk, slab_index, free_place, insert_free_slab,
  big_run, try_get_big_free_slab, free_pages, free_big_slab, slab_pop, allocate_big_slab, new_slab,
  get_slab,
}
use wyrm_os.Mem.Slab.FreeList.{FreeList}
use wyrm_os.Mem.Slab.Make.{Made, make_slab-FreeList}
use wyrm_os.Mem.Slab.Calls.{Slab, kmalloc-Slab, kfree-Slab, insert_slab-cycle}

abbrev empty : Heap
empty = record { heap = heap_start; slabs = λ i. 0; free_slabs = 0; memory = λ a. 0 }

-- Freed and used again, a large slab makes the next large kmalloc go on for ever.
for_ever :
    (kmalloc 9 2000 empty >>= λ (a, h).
    kfree 9 a h >>= λ h'. kmalloc 9 2000 h' >>= λ (b, h''). kmalloc 50 2000 h'')
    ≡ none
unfolding kmalloc kfree get_slab slab_for_size bit_length new_slab allocate_big_slab
    try_get_big_free_slab big_run free_big_slab free_pages insert_free_slab free_place insert_slab
    slab_index slab_pop tail sbrk pages align
for_ever = refl

used_again :
    (kmalloc 9 2000 empty >>= λ (a, h).
    kfree 9 a h >>= λ h'. kmalloc 9 2000 h' >>= λ (b, h''). some b)
    ≡ some (heap_start + 32)
unfolding kmalloc kfree get_slab slab_for_size bit_length new_slab allocate_big_slab
    try_get_big_free_slab big_run free_big_slab free_pages insert_free_slab free_place insert_slab
    slab_index slab_pop tail sbrk pages align
used_again = refl

-- A page at 0xfffff00000005000 with a free list of two entries
abbrev page : ℕ
page = heap_start + 0x5000

abbrev one : Heap
one = record empty {
  slabs = λ i. if i == 4 then page else 0;
  memory = λ a.
      if a == page
      then slab_magic
      else if a == page + 8
      then 7
      else if a == page + 16
      then page + 32
      else if a == page + 32
      then page + 160
      else 0;
}

seven : slab_for_size 100 ≡ 7
unfolding slab_for_size bit_length
seven = refl

make_slab-FreeList_example :
    (h' : Heap) × (make_slab 7 page empty ≡ some h')
    × Made 7 page ((page_size - slab_header) / 2 ^ 7 - 1) (2 ^ 7) empty h'
make_slab-FreeList_example = make_slab-FreeList 7 page empty (omega arith) (omega arith)

kmalloc-Slab_example :
    (h' : Heap) × (kmalloc 1 100 one ≡ some (page + 32, h'))
    × FreeList h'.memory page ((page + 160) ∷ [])
    × ((a : ℕ) → a ≢ free_at page → h'.memory a ≡ one.memory a)
unfolding tail slab_for_size bit_length
kmalloc-Slab_example =
    kmalloc-Slab 1 100 page (page + 32) ((page + 160) ∷ []) one (omega arith) (omega arith) refl
      (omega arith)

kfree-Slab_example :
    (h' : Heap) × (kfree 1 (page + 288) one ≡ some h')
    × Slab h' page 7 ((page + 288) ∷ (page + 32) ∷ (page + 160) ∷ [])
    × ((i : ℕ) → h'.slabs i ≡ one.slabs i)
    × ((a : ℕ) → a ≢ page + 288 → a ≢ free_at page → h'.memory a ≡ one.memory a)
kfree-Slab_example =
    kfree-Slab 1 page 7 (page + 288) ((page + 32) ∷ (page + 160) ∷ []) one (omega arith)
      (omega arith)

-- A large slab at the same place
abbrev large : Heap
large = record empty {
  slabs = λ i. if i == 8 then page else 0;
  memory = λ a. if a == page + 8 then 2000 else 0;
}

insert_slab-cycle_example :
    (h' : Heap) × (insert_slab 1 page large ≡ some h')
    × ((k : ℕ) → tail k h'.memory (h'.slabs (big_slab - min_slab)) ≡ none)
insert_slab-cycle_example =
    insert_slab-cycle 0 page large (λ e. omega arith) (omega arith) refl refl
