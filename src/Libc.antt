-- ===== src/Libc.antt =====
-- lib/: the kernel's own C library.
pub mod String
pub mod Stdlib
