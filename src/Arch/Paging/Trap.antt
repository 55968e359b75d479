-- ===== src/Arch/Paging/Trap.antt =====
-- `vmm_set_flags`: where the mark for traps goes.
use sysx.Base.{ℕ, ◌≡◌, ◌≢◌, refl, Bool, true, false, some, arith, ◌==◌}
use sysx.Arch.Paging.{Bits, table_at, Paging, pde_of, pte_of, has}
use sysx.Arch.Paging.Query.{put_flags, set_flags}

-- On a small page whose index in the table is not that of the table, `vmm_set_flags` with the present
-- flag sets all flags but the mark for traps, which stays what it was.
pub set_flags-keeps_trapped :
    (va flags pa frame : ℕ) (a b c : Bool) (bits : Bits) (s : Paging)
    → has flags 1 ≡ true
    → s.dir (pde_of va) ≡ table_at a b c frame
    → s.table (pde_of va) (pte_of va) ≡ some (bits, pa)
    → pde_of va ≢ pte_of va
    → (set_flags va flags s).table (pde_of va) (pte_of va) ≡ some (put_flags flags bits, pa)
unfolding set_flags
set_flags-keeps_trapped va flags pa frame a b c bits s set at entry ne =
    let other : (pde_of va == pte_of va) ≡ false = ground arith in
    let same : (pde_of va == pde_of va) ≡ true = ground arith in
    let same' : (pte_of va == pte_of va) ≡ true = ground arith in
    rw (set_flags, at, entry, same, other, same', set) refl
