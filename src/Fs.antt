-- ===== src/Fs.antt =====
-- fs/: the virtual file system and what stands behind it.
pub mod Vfs
pub mod Ftab
pub mod Memfs
pub mod Tarfs
pub mod Devfs
