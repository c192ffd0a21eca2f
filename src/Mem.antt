-- ===== src/Mem.antt =====
-- kernel/mem: the physical frame allocator and the kernel heap.
pub mod Pmm
pub mod Heap
pub mod Paging
pub mod Setup
