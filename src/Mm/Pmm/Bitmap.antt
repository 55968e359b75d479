-- ===== src/Mm/Pmm/Bitmap.antt =====
-- The bitmap as a predicate on frames, and what `pmm_alloc` and `pmm_free` do to it.
use sysx.Base.{ℕ, ◌/◌, ◌%◌, ◌^◌, ◌≤◌, ◌≡◌, bit_and, arith, ◌==◌, if◌then◌else◌, size_max}
use sysx.Base.Bits.{bit_at, bit_at-le, bit_and-pow, bit_at-set, bit_at-clear, bit_at-ones, pow_pos}
use sysx.Mm.Pmm.{Pmm, ok, in_use, alloc, free}

-- 1 if the frame is in use, 0 if it is free.
abbrev pub used : Pmm → ℕ → ℕ
used p frame = bit_at (p.bitmap (frame / 32)) (frame % 32)

pub used-le : (p : Pmm) (f : ℕ) → used p f ≤ 1
used-le p f = bit_at-le (p.bitmap (f / 32)) (f % 32)

-- The code's test of a frame's bit.
pub test-used :
    (p : Pmm) (f : ℕ) → (bit_and (p.bitmap (f / 32)) (2 ^ (f % 32)) == 0) ≡ (used p f == 0)
test-used p f =
    rw (bit_and-pow (p.bitmap (f / 32)) (f % 32)) (grind (arith, used-le p f, pow_pos (f % 32)))

pub used_of_full : (p : Pmm) (f : ℕ) → p.bitmap (f / 32) ≡ size_max → used p f ≡ 1
used_of_full p f h = rw h (bit_at-ones 32 (f % 32) (omega arith))

-- `pmm_alloc` succeeds exactly on a free frame; afterwards the frame is in use, and every other
-- frame is as it was.
pub alloc_lem :
    (p : Pmm) (f : ℕ)
    → ((alloc p f).0 ≡ (if used p f == 0 then ok else in_use))
      × ((g : ℕ) → used (alloc p f).1 g ≡ (if f == g then 1 else used p g))
unfolding alloc
alloc_lem p f = (
  ground (arith, test-used p f),
  λ g. ground (
    arith,
    test-used p f,
    used-le p f,
    used-le p g,
    bit_at-set (p.bitmap (f / 32)) (f % 32) (g % 32),
  ),
)

-- `pmm_free` makes its frame free, whether it was in use or not, and leaves every other as it is.
pub free_lem : (p : Pmm) (f g : ℕ) → used (free p f) g ≡ (if f == g then 0 else used p g)
unfolding free
free_lem p f g =
    ground
      (arith, bit_at-clear 32 (p.bitmap (f / 32)) (f % 32) (g % 32) (omega arith) (omega arith))
