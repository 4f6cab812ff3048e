-- ===== src/Mem/Slab.antt =====
-- What the functions of kernel/mem/alloc.c do to the slabs of the heap.
pub mod FreeList
pub mod Sizes
pub mod Make
pub mod Calls
mod Tests
