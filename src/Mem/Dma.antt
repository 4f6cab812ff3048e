-- ===== src/Mem/Dma.antt =====
-- k_mem_alloc_dma and k_mem_free_dma of kernel/mem/mmio.c. `none` is a panic or a failed assert.
use wyrm_os.Base.{ℕ, ◌/◌, ◌<◌, ◌≡◌, refl, true, Option, some}
use wyrm_os.Base.Fail.{◌>>=◌}
use wyrm_os.Base.Word.{pages}
use wyrm_os.Mem.Pmm.{Pmm, alloc, mark_region}
use wyrm_os.Mem.Pmm.Mark.{mark_region-beyond}
use wyrm_os.Mem.Mmio.{Mmio, k_mem_iomap}
use wyrm_os.Mem.Paging.{Paging, get_physical}

-- The address that is mapped, and `*phys`
pub k_mem_alloc_dma : (size : ℕ) → Pmm → Mmio → Option ((ℕ × ℕ) × Pmm × Mmio)
k_mem_alloc_dma size pmm s = do
  (p, pmm') ← alloc pmm (pages size)
  (let (mem, s') = k_mem_iomap p size s in some ((mem, p), pmm', s'))

pub k_mem_free_dma : (mem size : ℕ) → Paging → Option Paging
k_mem_free_dma mem size s = do
  p ← get_physical mem s
  some (record s { pmm = mark_region s.pmm p (pages size) })

-- The physical address is taken for the number of a frame: where that number lies behind the bitmap,
-- nothing is freed.
k_mem_free_dma-same :
    (mem size p : ℕ) (s : Paging)
    → get_physical mem s ≡ some p
    → s.pmm.initialized ≡ true
    → s.pmm.size < p / 64
    → k_mem_free_dma mem size s ≡ some s
unfolding k_mem_free_dma
k_mem_free_dma-same mem size p s e done beyond =
    rw (e, mark_region-beyond s.pmm p (pages size) done beyond) refl
