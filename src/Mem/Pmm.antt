-- ===== src/Mem/Pmm.antt =====
-- kernel/mem/pmm.c: a bitmap with one bit for each page frame, 1 for a free frame. The lock is held
-- through each function, so that a call is one step.
pub mod Frames
pub mod Mark
pub mod Search
pub mod Alloc
mod Tests
use wyrm_os.Base.{
  ℕ, zero, suc, ◌+◌, ◌-◌, ◌*◌, ◌/◌, ◌%◌, ◌^◌, Bool, true, false, not, ◌&&◌, Option, none, some,
  List, [], ◌∷◌, bit_and, bit_or, ◌==◌, ltb, leb, if◌then◌else◌,
}
use wyrm_os.Base.Word.{not64, align, frame_of, addr_of, page_size, u64}

-- the static variables of pmm.c
pub record Pmm : Type 0 where
  pub bitmap : ℕ → ℕ
  pub size : ℕ
  pub free_index : ℕ
  pub initialized : Bool

abbrev pub frame_index : ℕ → ℕ
frame_index f = f / 64

abbrev pub frame_bit : ℕ → ℕ
frame_bit f = f % 64

abbrev pub frame_from : ℕ → ℕ → ℕ
frame_from index b = b + index * 64

abbrev pub write : (ℕ → ℕ) → ℕ → ℕ → ℕ → ℕ
write m i w j = if j == i then w else m j

-- The result is false where the C function returns -1.
pub mark_frame : Pmm → ℕ → Pmm × Bool
mark_frame s f =
    let index = frame_index f in
    if ltb s.size index && s.initialized
    then (s, false)
    else (let size = if ltb s.size index then index + 1 else s.size in
        let bitmap = write s.bitmap index (bit_or (s.bitmap index) (2 ^ frame_bit f)) in
        let free_index = if bitmap s.free_index == 0 then index else s.free_index in
        (record s { bitmap = bitmap; size = size; free_index = free_index }, true))

-- The frames `start`, `start + 1`, ...; `count` of them.
pub mark_region : Pmm → ℕ → ℕ → Pmm
mark_region s start zero = s
mark_region s start (suc count) = mark_region (mark_frame s start).0 (start + 1) count

-- What the scan for free frames has found: a run of `found` frames from `frame` on, or enough.
pub data Scan : Type 0 where
  run : (found frame : ℕ) → Scan
  hit : (frame : ℕ) → Scan

-- The inner loop over the bits `j`, ... of word `i`, with `left` bits to go.
pub scan_bits : (frames i w left j found frame : ℕ) → Scan
scan_bits frames i w zero j found frame = run found frame
scan_bits frames i w (suc left) j found frame =
    let free = not (bit_and w (2 ^ j) == 0) in
    let frame' = if free then (if found == 0 then frame_from i j else frame) else frame in
    let found' = if free then found + 1 else 0 in
    let rest = scan_bits frames i w left (j + 1) found' frame' in
    if leb frames found' then hit frame' else rest

-- The outer loop over the words `i`, ..., with `left` words to go.
pub scan_words : (ℕ → ℕ) → (frames left i found frame : ℕ) → Scan
unfolding scan_bits
scan_words m frames zero i found frame = run found frame
scan_words m frames (suc left) i found frame = elim (scan_bits frames i (m i) 64 0 found frame) [
  | run found' frame' ↦ scan_words m frames left (i + 1) found' frame'
  | hit frame' ↦ hit frame'
]

-- The loop that clears the bits of `count` frames.
pub clear_frames : (ℕ → ℕ) → ℕ → ℕ → ℕ → ℕ
clear_frames m f zero = m
clear_frames m f (suc count) =
    clear_frames (write m (frame_index f) (bit_and (m (frame_index f)) (not64 (2 ^ frame_bit f))))
      (f + 1) count

-- `while(i < size && !bitmap[i]) i++`, with `left` words to go.
pub skip_full : (ℕ → ℕ) → (left i : ℕ) → ℕ
skip_full m zero i = i
skip_full m (suc left) i = let rest = skip_full m left (i + 1) in if m i == 0 then rest else i

-- `none` is the panic: no run of that many frames was found.
unfoldable pub alloc : Pmm → ℕ → Option (ℕ × Pmm)
unfolding scan_words clear_frames skip_full
alloc s frames =
    if leb s.size s.free_index
    then none
    else elim (scan_words s.bitmap frames (s.size - s.free_index) s.free_index 0 0) [
      | run _ _ ↦ none
      | hit frame ↦
          let bitmap = clear_frames s.bitmap frame frames in
          let i = skip_full bitmap (s.size - s.free_index) s.free_index in
          let i' = if leb s.size i then 0 else i in
          let i'' = skip_full bitmap (s.size - i') i' in
          some (addr_of frame, record s { bitmap = bitmap; free_index = i'' })
    ]

-- `struct limine_memmap_entry`; the bootloader fills the entries in.
pub record Entry : Type 0 where
  pub base : ℕ
  pub len : ℕ
  pub usable : Bool

-- Takes `size` bytes off the front of the first usable entry that has them, and returns their
-- physical address; 0 where there is none. An entry that is used up is no longer usable.
pub allocate_pmm_bitmap : ℕ → List Entry → ℕ × List Entry
allocate_pmm_bitmap size [] = (0, [])
allocate_pmm_bitmap size (e ∷ es) =
    let (r, es') = allocate_pmm_bitmap size es in
    if e.usable && leb size e.len
    then (
      e.base,
      record { base = u64 (e.base + size); len = e.len - size; usable = not (e.len - size == 0) }
          ∷ es,
    )
    else (r, e ∷ es')

mark_usable : Pmm → List Entry → Pmm
mark_usable s [] = s
mark_usable s (e ∷ es) =
    mark_usable (if e.usable then mark_region s (frame_of e.base) (e.len / page_size) else s) es

last_end : Entry → List Entry → ℕ
last_end e [] = u64 (e.base + e.len)
last_end e (f ∷ es) = last_end f es

-- The state before initialisation: an empty bitmap.
pub fresh : Pmm
fresh = record { bitmap = λ _. 0; size = 0; free_index = 0; initialized = false }

-- `none` where the C function returns -1; beside the state the physical address of the bitmap.
pub pmm_init : List Entry → Option (ℕ × Pmm)
unfolding mark_usable last_end allocate_pmm_bitmap fresh
pmm_init [] = none
pmm_init (e ∷ es) =
    let bytes = align (u64 (frame_index (frame_of (last_end e es)) * 8)) page_size in
    let (address, entries) = allocate_pmm_bitmap bytes (e ∷ es) in
    some (address, record (mark_usable fresh entries) { initialized = true })
