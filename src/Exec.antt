-- ===== src/Exec.antt =====
-- exec/: tasks, processes, symbols and the loader.
pub mod Task
pub mod Process
pub mod Syms
pub mod Elf
