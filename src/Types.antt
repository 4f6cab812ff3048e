-- ===== src/Types.antt =====
-- lib/types: the containers of the kernel, over an explicit heap.
pub mod Heap
pub mod DList
