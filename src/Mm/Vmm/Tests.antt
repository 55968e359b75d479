-- ===== src/Mm/Vmm/Tests.antt =====
-- The theorems at an address space that keeps the physical address of each virtual one.
use sysx.Base.{ℕ, zero, suc, ◌+◌, ◌*◌, ◌/◌, ◌≡◌, refl, true, some, List, arith}
use sysx.Mm.Vmm.{map, map_from, pick, round_map, fit_idx}
use sysx.Mm.Vmm.Flat.{all_zero, flat, empty}
use sysx.Mm.Vmm.Pages.{Page, Tiles, map_all}
use sysx.Mm.Vmm.Mapping.{map-maps}
use sysx.Mm.Vmm.Wrap.{map-unaligned}
use sysx.Mm.Vmm.Scan.{IsRun}

all_zero-empty : (v n : ℕ) → all_zero empty v n ≡ true
unfolding all_zero
all_zero-empty v zero = refl
all_zero-empty v (suc n) = all_zero-empty v n

empty-IsRun : (p n : ℕ) → IsRun flat 0 empty p n
empty-IsRun p n i lt = rw (all_zero-empty ((p + i) * 4096 / 4096 * 4096) 4096) refl

-- A page at 0x5000, mapped from an address within a frame.
mapped_page :
    map flat 0 0x7010 0x5000 16 0 3 empty ≡ some (0x5010, (flat.pgmap 0 0x7000 0x5000 0 3 empty))
unfolding map map_from pick round_map fit_idx
mapped_page = refl

map-maps_example :
    (gs : List Page) × (map flat 0 0x7010 0x40_0000 0x50_0000 1 3 empty
      ≡ some (0x40_0000 + 0x10, map_all flat 0 3 gs empty))
    × Tiles 1 0x7000 0x40_0000 0x90_1000 gs
map-maps_example =
    map-maps flat 0 0x7010 0x40_0000 0x50_0000 1 3 empty refl (omega arith) (omega arith)

map-unaligned_example : map flat 0 0x7000 0x5010 0x800 0 3 empty ≡ some (0x4000, empty)
map-unaligned_example =
    map-unaligned flat 0 0x7000 0x5010 0x800 0 3 empty refl (omega arith) (omega arith)
      (omega arith)
