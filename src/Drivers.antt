-- ===== src/Drivers.antt =====
-- drivers/: drivers of buses.
pub mod Pci
