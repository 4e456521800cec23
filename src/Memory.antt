-- ===== src/Memory.antt =====
-- kernel/memory: page mappings of the kernel's address space and the physical block allocator.
pub mod Paging
pub mod Allocator
pub mod Sure
pub mod Arrays
pub mod Reached
pub mod Tests
