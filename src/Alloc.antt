-- ===== src/Alloc.antt =====
-- The allocators. A pointer is an address, `none` for NULL; the memory that an allocator divides is
-- told from its address and size alone.
pub mod Bump
pub mod Slab
pub mod Block
pub mod Unified
mod Tests
