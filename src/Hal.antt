-- ===== src/Hal.antt =====
-- hal/: devices as the rest of the kernel sees them.
pub mod Keyboard
pub mod Devtree
pub mod Timer
pub mod Fbuf
pub mod Fbterm
pub mod Terminal
