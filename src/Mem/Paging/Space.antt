-- ===== src/Mem/Paging/Space.antt =====
-- The address spaces of paging.c: k_mem_paging_clone_pml, k_mem_paging_free_pml,
-- k_mem_paging_set_pml and k_mem_validate_pointer.
pub mod Free
pub mod Check
pub mod Clone
use wyrm_os.Base.{ℕ, zero, suc, ◌+◌, Bool, not, ◌&&◌, Option, none, some, leb, ◌==◌, if◌then◌else◌}
use wyrm_os.Base.Fail.{◌>>=◌}
use wyrm_os.Base.Word.{u64, page_size, frame_of, addr_of}
use wyrm_os.Mem.Pmm.{alloc, mark_frame}
use wyrm_os.Mem.Paging.{
  Paging, slot, table, to_virtual, present, user, page_of, with_page, set_word, get_physical,
}

-- An entry for a page or a table that the process owns
abbrev pub owned : ℕ → Bool
owned w = present w && user w

-- `memcpy` of a page, word by word
pub copy_page : (left src dst : ℕ) → Paging → Paging
copy_page zero src dst s = s
copy_page (suc left) src dst s = copy_page left (src + 8) (dst + 8) (set_word dst (s.memory src) s)

-- `copy[i].bits.page = FRAME(k_mem_pmm_alloc(1))`
pub new_page : (a : ℕ) → Paging → Option Paging
new_page a s = do
  (f, p) ← alloc s.pmm 1
  some (set_word a (with_page (s.memory a) (frame_of f)) (record s { pmm = p }))

-- A loop over the entries of a table from entry `i` on, `left` to go: the entry is copied, and one
-- that the process owns gets a frame of its own and what `deeper` makes of the two pages.
pub clone_entries : (ℕ → ℕ → Paging → Option Paging) → (left i src dst : ℕ) → Paging → Option Paging
unfolding new_page
clone_entries deeper zero i src dst s = some s
clone_entries deeper (suc left) i src dst s = do
  s' ←
      (let s1 = set_word (slot dst i) (s.memory (slot src i)) s in
        if owned (s1.memory (slot src i))
        then (do
          s2 ← new_page (slot dst i) s1
          deeper (table s2.high_map (s2.memory (slot src i)))
              (table s2.high_map (s2.memory (slot dst i))) s2)
        else some s1)
  clone_entries deeper left (i + 1) src dst s'

-- The four nested loops; below the last one a page is copied.
pub clone_table : (depth src dst : ℕ) → Paging → Option Paging
unfolding clone_entries copy_page
clone_table zero src dst s = some (copy_page 512 src dst s)
clone_table (suc depth) src dst s = clone_entries (clone_table depth) 512 0 src dst s

-- `copy` is what vmalloc has returned.
pub clone_pml : (pml copy : ℕ) → Paging → Option Paging
unfolding clone_table
clone_pml pml copy s = clone_table 4 (if pml == 0 then s.root_pml else pml) copy s

-- A loop of k_mem_paging_free_pml from entry `i` on: what an owned entry points to is freed, then
-- its frame.
pub free_entries : (ℕ → Paging → Paging) → (left i pg : ℕ) → Paging → Paging
free_entries deeper zero i pg s = s
free_entries deeper (suc left) i pg s =
    let w = s.memory (slot pg i) in
    free_entries deeper left (i + 1) pg (
      if owned w
      then (let s' = deeper (table s.high_map w) s in
          record s' { pmm = (mark_frame s'.pmm (page_of (s'.memory (slot pg i)))).0 })
      else s)

pub free_table : (depth pg : ℕ) → Paging → Paging
unfolding free_entries
free_table zero pg s = s
free_table (suc depth) pg s = free_entries (free_table depth) 512 0 pg s

pub free_pml : (pml : ℕ) → Paging → Paging
unfolding free_table
free_pml pml s = free_table 4 pml s

-- `none` where an assert fails
pub set_pml : (pml : ℕ) → Paging → Option Paging
set_pml pml s =
    let pml' = if pml == 0 then s.root_pml else pml in
    let s' = record s { pml = pml' } in
    get_physical pml' s' >>= λ phys.
    if phys == 0
    then none
    else if (pml' == s'.root_pml) && not (to_virtual s' phys == pml')
    then none
    else some (record s' { cr3 = phys })

-- The loop of k_mem_validate_pointer; `none` when the rounds run out
pub validate_loop : (rounds addr last : ℕ) → Paging → Option ℕ
validate_loop zero addr last s = none
validate_loop (suc rounds) addr last s =
    let rest = validate_loop rounds (u64 (addr + page_size)) last s in
    if leb addr last then (do p ← get_physical addr s; if p == 0 then some 0 else rest) else some 1

pub validate_pointer : (rounds start size : ℕ) → Paging → Option ℕ
unfolding validate_loop
validate_pointer rounds start size s =
    let end = if size == 0 then start else u64 (start + size) in
    validate_loop rounds (addr_of (frame_of start)) (addr_of (frame_of end)) s
