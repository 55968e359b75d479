-- ===== src/Kernel.antt =====
-- kernel/: what the kernel is started with.
pub mod Cmdline
