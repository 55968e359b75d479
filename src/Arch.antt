-- ===== src/Arch.antt =====
-- arch/: the processor.
pub mod Paging
