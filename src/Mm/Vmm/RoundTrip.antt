-- ===== src/Mm/Vmm/RoundTrip.antt =====
-- `vmm_alloc_map` and then `vmm_unmap`.
