-- ===== src/Mem/Paging.antt =====
-- kernel/arch/x86_64/mem/paging.c and kernel/include/mem/paging.h: the four levels of page tables.
-- The memory gives each virtual address the word that the kernel reads there; frames come from the
-- physical memory manager. `none` is a panic or an assert that fails.
pub mod Walk
pub mod Fill
pub mod Map
pub mod Unmap
pub mod Space
mod Tests
use wyrm_os.Base.{
  ℕ, zero, suc, ◌+◌, ◌-◌, ◌*◌, ◌/◌, ◌%◌, ◌^◌, bit_and, bit_or, Bool, true, false, not, ◌&&◌, Option,
  none, some, List, [], ◌∷◌, ltb, leb, ◌==◌, if◌then◌else◌,
}
use wyrm_os.Base.Fail.{◌>>=◌}
use wyrm_os.Base.Word.{u64, page_size, frame_of}
use wyrm_os.Mem.Pmm.{Pmm, alloc}
use wyrm_os.Mem.Mmio.{pm_user, pm_nocache, pm_writable}

-- `current_core->pml`, `__root_pml`, `__high_map_addr`, what `__set_pml` was given last, the memory
-- and the physical memory manager
pub record Paging : Type 0 where
  pub pml : ℕ
  pub root_pml : ℕ
  pub high_map : ℕ
  pub cr3 : ℕ
  pub memory : ℕ → ℕ
  pub pmm : Pmm

abbrev pub canonical : ℕ → ℕ
canonical a = a % 2 ^ 48

-- `PME`, `PDP`, `PDE` and `PTE`
abbrev pub pme : ℕ → ℕ
pme a = canonical a / 2 ^ 39 % 512

abbrev pub pdp : ℕ → ℕ
pdp a = canonical a / 2 ^ 30 % 512

abbrev pub pde : ℕ → ℕ
pde a = canonical a / 2 ^ 21 % 512

abbrev pub pte : ℕ → ℕ
pte a = canonical a / 2 ^ 12 % 512

unfoldable pub layers : ℕ → List ℕ
layers a = pme a ∷ pdp a ∷ pde a ∷ pte a ∷ []

-- The bits of `union page`
abbrev pub is_set : ℕ → ℕ → Bool
is_set w j = not (w / 2 ^ j % 2 == 0)

abbrev pub present : ℕ → Bool
present w = not (w % 2 == 0)

abbrev pub user : ℕ → Bool
user w = is_set w 2

abbrev pub large : ℕ → Bool
large w = is_set w 7

unfoldable pub page_of : ℕ → ℕ
page_of w = w / 2 ^ 12 % 2 ^ 28

abbrev pub flag : Bool → ℕ
flag true = 1
flag false = 0

-- A new entry
unfoldable pub entry : (flags frame : ℕ) → ℕ
entry flags frame =
    1
    + 2 * flag (not (bit_and flags pm_writable == 0))
    + 4 * flag (not (bit_and flags pm_user == 0))
    + 16 * flag (not (bit_and flags pm_nocache == 0))
    + 2 ^ 12 * (frame % 2 ^ 28)

-- `bits.page = frame` in an entry
unfoldable pub with_page : (w frame : ℕ) → ℕ
with_page w frame = w % 2 ^ 12 + 2 ^ 12 * (frame % 2 ^ 28) + 2 ^ 40 * (w / 2 ^ 40)

-- `ADDR(bits.page)`: the field has 28 bits, so that the shift is one of ints, which wraps around in
-- 32 bits, and the result is extended by its sign.
unfoldable pub page_addr : ℕ → ℕ
page_addr p =
    let low = p * 2 ^ 12 % 2 ^ 32 in if ltb low (2 ^ 31) then low else low + (2 ^ 64 - 2 ^ 32)

-- `TO_VIRTUAL`
abbrev pub to_virtual : Paging → ℕ → ℕ
to_virtual s phys = bit_or phys s.high_map

-- `&pg[index]`
abbrev pub slot : ℕ → ℕ → ℕ
slot pg index = pg + index * 8

-- The table that an entry points to
abbrev pub table : (high_map w : ℕ) → ℕ
table high_map w = bit_or (page_addr (page_of w)) high_map

unfoldable pub set_word : ℕ → ℕ → Paging → Paging
set_word a w s = record s { memory = λ b. if b == a then w else s.memory b }

-- The frame of a new entry: a fresh one for a table, or where no physical address is given
unfoldable pub entry_frame : (i paddr : ℕ) → Paging → Option (ℕ × Paging)
entry_frame i paddr s =
    if ltb i 3
    then (do (a, p) ← alloc s.pmm 1; some (frame_of a, record s { pmm = p }))
    else if paddr == 0
    then (do (a, p) ← alloc s.pmm 1; some (frame_of a, record s { pmm = p }))
    else some (frame_of paddr, s)

-- `if(!pg[index].bits.present) { ... }`
pub fill : (i index pg paddr flags : ℕ) → Paging → Option Paging
unfolding entry_frame
fill i index pg paddr flags s = if present (s.memory (slot pg index)) then some s else (do
  (frame, s') ← entry_frame i paddr s
  some (set_word (slot pg index) (entry flags frame) s'))

-- The loop over the layers from layer `i` on
pub map_layers : (i : ℕ) → List ℕ → (pg paddr flags : ℕ) → Paging → Option Paging
unfolding fill
map_layers i [] pg paddr flags s = some s
map_layers i (index ∷ rest) pg paddr flags s = do
  s' ← fill i index pg paddr flags s
  map_layers (i + 1) rest (if i == 3 then pg else table s'.high_map (s'.memory (slot pg index)))
      paddr flags s'

-- `assert(pme <= 512 && pdp <= 512 && pde <= 512 && pte <= 512)`
abbrev pub in_tables : ℕ → Bool
in_tables a = leb (pme a) 512 && leb (pdp a) 512 && leb (pde a) 512 && leb (pte a) 512

pub map_ex : (vaddr paddr flags : ℕ) → Paging → Option Paging
unfolding map_layers
map_ex vaddr paddr flags s =
    if in_tables vaddr then map_layers 0 (layers vaddr) s.pml paddr flags s else none

-- The loop of k_mem_paging_map_pages_ex, from page `page` on, `left` pages to go
pub map_loop : (left page vaddr paddr flags : ℕ) → Paging → Option Paging
unfolding map_ex
map_loop zero page vaddr paddr flags s = some s
map_loop (suc left) page vaddr paddr flags s = do
  s' ←
      map_ex (u64 (vaddr + page * page_size))
        (if paddr == 0 then paddr else u64 (paddr + page * page_size)) flags s
  map_loop left (page + 1) vaddr paddr flags s'

pub map_pages_ex : (vaddr count paddr flags : ℕ) → Paging → Option Paging
unfolding map_loop
map_pages_ex vaddr count paddr flags s =
    if (vaddr % page_size == 0) && (paddr % page_size == 0)
    then map_loop count 0 vaddr paddr flags s
    else none

pub map_region_ex : (vaddr_start vaddr_end paddr flags : ℕ) → Paging → Option Paging
unfolding map_pages_ex
map_region_ex vaddr_start vaddr_end paddr flags s =
    if (vaddr_start % page_size == 0) && (vaddr_end % page_size == 0) && (paddr % page_size == 0)
    then map_pages_ex vaddr_start (u64 (vaddr_start + (2 ^ 64 - vaddr_end)) / page_size) paddr flags
        s
    else none

-- The loop of k_mem_paging_unmap, from layer `i` on
pub unmap_layers : (i : ℕ) → List ℕ → (pg : ℕ) → Paging → Paging
unmap_layers i [] pg s = s
unmap_layers i (index ∷ rest) pg s =
    let w = s.memory (slot pg index) in
    if present w
    then (if i == 3
        then set_word (slot pg index) 0 s
        else unmap_layers (i + 1) rest (table s.high_map w) s)
    else s

pub unmap : (vaddr : ℕ) → Paging → Paging
unfolding unmap_layers
unmap vaddr s = unmap_layers 0 (layers vaddr) s.pml s

-- The loop of k_mem_paging_get_physical, from layer `i` on
pub walk : (high_map : ℕ) (m : ℕ → ℕ) (i : ℕ) → List ℕ → (pg vaddr : ℕ) → ℕ
walk high_map m i [] pg vaddr = 0
walk high_map m i (index ∷ rest) pg vaddr =
    let w = m (slot pg index) in
    let deeper = walk high_map m (i + 1) rest (table high_map w) vaddr in
    if present w
    then (if large w
        then u64 (page_addr (page_of w) + vaddr % 2 ^ 21)
        else if ltb i 3
        then deeper
        else u64 (page_addr (page_of w) + vaddr % page_size))
    else 0

-- `_vaddr & CANONICAL_MASK & ~(PAGE_SIZE - 1)`
abbrev pub page_base : ℕ → ℕ
page_base a = canonical a / page_size * page_size

-- `none` would be a failed assert.
pub get_physical : (vaddr : ℕ) → Paging → Option ℕ
unfolding walk
get_physical vaddr s =
    if (page_base vaddr % page_size == 0) && in_tables (page_base vaddr)
    then some (walk s.high_map s.memory 0 (layers (page_base vaddr)) s.pml vaddr)
    else none
