-- ===== src/Mm/Pmm/Tests.antt =====
-- A bitmap of five frames, runs of the code on it, and the theorems at it.
use sysx.Base.{
  ℕ, zero, suc, ◌+◌, ◌<◌, ◌≡◌, refl, ◌⊎◌, ◌&&◌, some, arith, ltb, leb, if◌then◌else◌, size_max,
}
use sysx.Mm.Pmm.{Pmm, run_break, probe, search, first_free, alloc, alloc_free, in_use}
use sysx.Mm.Pmm.Bitmap.{used}
use sysx.Mm.Pmm.Search.{IsFreeRun}
use sysx.Mm.Pmm.FirstFit.{AllUsed}
use sysx.Mm.Pmm.Allocate.{alloc_free_lem}

-- The words past the bitmap hold ones.
abbrev words : ℕ → ℕ
words zero = 0xffff_fff2
words (suc n) = 0xffff_ffff

-- Frames 0, 2 and 3 are free.
abbrev sparse : Pmm
sparse = record { bitmap = words; frames = 5 }

first_free-sparse : (first_free sparse 1 ≡ some 0) × (first_free sparse 2 ≡ some size_max)
unfolding first_free search probe run_break
first_free-sparse = (refl, refl)

alloc-sparse : ((alloc sparse 4).0 ≡ in_use) × (used (alloc sparse 3).1 3 ≡ 1)
unfolding alloc
alloc-sparse = (refl, refl)

rest_used : AllUsed sparse 4 5
rest_used g lo hi = let e : g ≡ 4 = omega arith in rw e

alloc_free_lem_example :
    (r : ℕ) × (q : Pmm) × (alloc_free sparse 1 ≡ some (r, q))
    × (((r ≡ size_max) × (q ≡ sparse))
        ⊎ ((r < 5)
            × IsFreeRun sparse r 1
            × ((g : ℕ) → used q g ≡ (if leb r g && ltb g (r + 1) then 1 else used sparse g))))
alloc_free_lem_example = alloc_free_lem sparse 1 (omega arith)
