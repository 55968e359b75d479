-- ===== src/Mm.antt =====
-- mm/: physical and virtual memory.
pub mod Pmm
pub mod Vmm
pub mod Kheap
