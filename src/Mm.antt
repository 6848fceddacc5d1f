-- ===== src/Mm.antt =====
-- Memory management, kernel/src/mm: the physical page bitmap and what is built on it.
pub mod Page
pub mod Pmm
pub mod Alloc
pub mod Vmm
pub mod Slab
