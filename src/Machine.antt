-- ===== src/Machine.antt =====
-- The parts of arch/x86_64 that are not input and output.
pub mod Memops
pub mod Pmm
pub mod Paging
pub mod Vmm
pub mod BootAlloc
pub mod Serial
pub mod Cli
