-- ===== src/Mm/Vmm/TrapTests.antt =====
-- Lists of traps and of staged address spaces, runs of the code on them, and the theorems at them.
use sysx.Base.{ℕ, ◌≡◌, refl, true, false, some, List, [], ◌∷◌, arith, Any, All}
use sysx.Mm.Vmm.{Target}
use sysx.Mm.Vmm.Traps.{cow, Trap, returns, stage_free, find_zero, do_cleanup}
use sysx.Mm.Vmm.Staging.{is_due, do_cleanup-stage_free}
use sysx.Mm.Vmm.Cow.{Space, round_cow}
use sysx.Mm.Vmm.Fault.{find_resolved, remove_from, drop_pair}
use sysx.Mm.Vmm.Reference.{remove_from-fails}

-- Every page is mapped.
abbrev full : Target ℕ
full = record {
  pgmap = λ vmm pa va i flags s. s;
  pgunmap = λ vmm va i s. s;
  get_pgsz = λ s vmm va. 0;
  get_paddr = λ s vmm v. v;
  set_paddr = λ vmm va pa s. s;
  get_flags = λ s vmm va. s;
  set_flags = λ vmm va flags s. flags;
}

-- Space 1 is the source of a page of space 2, and of the same address of space 3.
abbrev pairs : List Trap
pairs =
    record { kind = cow; vmm = 1; vaddr = 0x5000; info = 1 }
    ∷ record { kind = cow; vmm = 2; vaddr = 0x5000; info = 0 }
    ∷ record { kind = cow; vmm = 1; vaddr = 0x5000; info = 3 }
    ∷ record { kind = cow; vmm = 3; vaddr = 0x5000; info = 2 }
    ∷ []

abbrev space : Space ℕ
space = record {
  vm = 0;
  traps = record { traps = pairs; locked = true };
  heap = λ i. true;
  calls = 0;
}

-- A size of 5000 bytes is not rounded to two pages.
round_cow-odd : round_cow 0x1000 0x2000 5000 ≡ (0x1000, 0x2000, 9096)
unfolding round_cow
round_cow-odd = refl

do_cleanup-stage_free_example :
    ((x : ℕ)
      → is_due 9 x ≡ true
      → Any (λ y. y ≡ x) (8 ∷ 9 ∷ 0 ∷ 7 ∷ [])
      → Any (λ y. y ≡ x) (do_cleanup 9 (record { staged = 9 ∷ 8 ∷ 7 ∷ []; locked = false })).0)
    × All
        (λ x. is_due 9 x ≡ true)
        (do_cleanup 9 (record { staged = 9 ∷ 8 ∷ 7 ∷ []; locked = false })).0
    × All
        (λ x. is_due 9 x ≡ false)
        (do_cleanup 9 (record { staged = 9 ∷ 8 ∷ 7 ∷ []; locked = false })).1.staged
unfolding stage_free find_zero
do_cleanup-stage_free_example =
    do_cleanup-stage_free 9 8 (9 ∷ 0 ∷ 7 ∷ []) (record { staged = 9 ∷ 8 ∷ 7 ∷ []; locked = false })
      refl

remove_from-fails_example :
    remove_from full 10 1 3 1 ((0x5000, 2, 0x5000) ∷ []) space
    ≡ some (returns (false, drop_pair full 3 space))
unfolding find_resolved
remove_from-fails_example =
    remove_from-fails full 9 1 3 0 ((0x5000, 2, 0x5000) ∷ []) (0x5000, 2, 0x5000) space refl refl
      refl refl (omega arith)
