-- ===== src/Helpers.antt =====
-- helpers/: small parts that the others share.
pub mod Basecol
pub mod Path
pub mod Mutex
