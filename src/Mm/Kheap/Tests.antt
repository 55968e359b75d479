-- ===== src/Mm/Kheap/Tests.antt =====
-- A heap at 0x1_0000 that gets its first page and gives it back.
use sysx.Base.{◌-◌, ◌^◌, ◌≡◌, refl, ℕ, Option, none, some}
use sysx.Mm.Pmm.{Pmm}
use sysx.Mm.Vmm.Flat.{Flat, flat, empty}
use sysx.Mm.Kheap.{Kheap, kmorecore, trim}

-- Frames 0 and 7 of eight are in use.
abbrev eight : Pmm
eight = record { bitmap = λ n. 0x81; frames = 8 }

abbrev no_heap : Kheap Flat
no_heap = record { size = 0; spaces = empty; pmm = eight }

-- One page, at frame 7.
abbrev one_page : Kheap Flat
one_page = record { size = 0x1000; spaces = flat.pgmap 0 0x7000 0x1_0000 0 27 empty; pmm = eight }

-- The page is given back.
shrunk : Option (ℕ × ℕ × ℕ)
unfolding kmorecore trim
shrunk = elim (kmorecore flat 0 0x1_0000 0x10_0000 (2 ^ 32 - 0x1000) one_page) [
  | none ↦ none
  | some (r, k) ↦ some (r, k.size, k.spaces 0x1_0000)
]

shrunk-run : shrunk ≡ some (0x1_1000, 0, 0)
unfolding shrunk kmorecore trim
shrunk-run = refl
