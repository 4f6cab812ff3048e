-- ===== src/Mem.antt =====
-- kernel/mem: the physical memory manager.
pub mod Pmm
pub mod Heap
pub mod Slab
pub mod Mmio
pub mod Dma
pub mod Paging
