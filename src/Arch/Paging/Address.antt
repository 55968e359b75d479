-- ===== src/Arch/Paging/Address.antt =====
-- Where the addresses lead after a page was mapped.
use sysx.Base.{ℕ, ◌≡◌, ◌≢◌, true, some, size_max}
use sysx.Mm.Pmm.{Pmm, alloc_free}
use sysx.Arch.Paging.{Pte, Pde, absent, table_at, huge, Paging, has, pgmap_small}
use sysx.Arch.Paging.Query.{get_paddr}
use sysx.Arch.Paging.Lookup.{IsMappedBy}

-- An entry of the directory for a huge page has the present bit.
unfoldable pub IsPresent : Pde → Type 0
IsPresent absent = Unit
IsPresent (table_at p w u frame) = Unit
IsPresent (huge bits n) = bits.present ≡ true

module _ (pa va flags : ℕ) (set : has flags 1 ≡ true) (d : ℕ → Pde) (tab : ℕ → ℕ → Pte) (p : Pmm)
    (frame : ℕ) (q : Pmm) (got : alloc_free p 1 ≡ some (frame, q)) (fine : frame ≢ size_max) where
  abbrev here : Paging
  here = record { dir = d; table = tab; pmm = p }

  Maps : Type 0
  Maps =
      (s : Paging) × (pgmap_small pa va flags here ≡ some s) × IsMappedBy pa va (get_paddr here) s
