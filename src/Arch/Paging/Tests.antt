-- ===== src/Arch/Paging/Tests.antt =====
-- A directory with a page table and a huge page, and the theorems at it.
use sysx.Base.{◌≡◌, refl, true, false, none, some, arith, ◌==◌, if◌then◌else◌}
use sysx.Mm.Pmm.{Pmm}
use sysx.Arch.Paging.{absent, table_at, huge, Paging, bits_of}
use sysx.Arch.Paging.Query.{put_flags, set_flags}
use sysx.Arch.Paging.Trap.{set_flags-keeps_trapped}

abbrev frames : Pmm
frames = record { bitmap = λ i. if i == 0 then 0xffff_ff0f else 0xffff_ffff; frames = 32 }

-- Entry 0 is a page table, entry 1 a huge page.
abbrev paging : Paging
paging = record {
  dir = λ i.
      if i == 0 then table_at true true false 3 else if i == 1 then huge (bits_of 3) 7 else absent;
  table = λ i j. if j == 2 then some (bits_of 67, 9) else none;
  pmm = frames;
}

set_flags-keeps_trapped_example :
    (set_flags 0x2000 3 paging).table 0 2 ≡ some (put_flags 3 (bits_of 67), 9)
set_flags-keeps_trapped_example =
    set_flags-keeps_trapped 0x2000 3 9 3 true true false (bits_of 67) paging refl refl refl
      (omega arith)
