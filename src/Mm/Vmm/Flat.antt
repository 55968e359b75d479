-- ===== src/Mm/Vmm/Flat.antt =====
-- An address space that keeps the physical address of each virtual one, for the tests.
use sysx.Base.{
  ℕ, zero, suc, ◌+◌, ◌-◌, ◌*◌, ◌/◌, ◌%◌, ◌&&◌, Bool, true, false, leb, ltb, ◌==◌, if◌then◌else◌,
  size_max,
}
use sysx.Mm.Vmm.{Target, pgsz}

abbrev pub Flat : Type 0
Flat = ℕ → ℕ

-- Whether `n` addresses from `v` on lead to 0.
unfoldable pub all_zero : Flat → ℕ → ℕ → Bool
all_zero f v zero = true
all_zero f v (suc n) = let rest = all_zero f v n in if f (v + n) == 0 then rest else false

abbrev pub flat : Target Flat
flat = record {
  pgmap = λ vmm pa va i flags s v. if leb va v && ltb v (va + pgsz i) then pa + (v - va) else s v;
  pgunmap = λ vmm va i s v. if leb va v && ltb v (va + pgsz i) then 0 else s v;
  get_pgsz = λ s vmm va. if all_zero s (va / 4096 * 4096) 4096 then size_max else 0;
  get_paddr = λ s vmm v. s v;
  set_paddr = λ vmm va pa s v. if v / 4096 == va / 4096 then pa + v % 4096 else s v;
  get_flags = λ s vmm va. 0;
  set_flags = λ vmm va flags s. s;
}

-- Nothing is mapped.
abbrev pub empty : Flat
empty v = 0
