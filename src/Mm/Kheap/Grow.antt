-- ===== src/Mm/Kheap/Grow.antt =====
-- `kmorecore` that makes the heap larger.
use sysx.Base.{
  List, [], ◌∷◌, length, ◌≢◌, ℕ, ◌+◌, ◌*◌, ◌<◌, ◌≡◌, Bool, true, false, Option, some, ◌==◌,
  if◌then◌else◌,
}
use sysx.Mm.Pmm.{Pmm}
use sysx.Mm.Pmm.Bitmap.{used}
use sysx.Mm.Vmm.{Target}
use sysx.Mm.Kheap.{Kheap, heap_flags}

-- How often a frame is in a list.
abbrev pub times : ℕ → List ℕ → ℕ
times g [] = 0
times g (f ∷ fs) = (if f == g then 1 else 0) + times g fs

module _ {S : Type 0} (t : Target S) (vmm : ℕ) where
  -- The frames of the list, mapped as pages of the smallest size from `vaddr` on.
  unfoldable pub map_frames : ℕ → List ℕ → S → S
  map_frames vaddr [] s = s
  map_frames vaddr (f ∷ fs) s =
      map_frames (vaddr + 4096) fs (t.pgmap vmm (f * 4096) vaddr 0 heap_flags s)

  -- A search for `left` frames took those of `fs`: `all` is whether it found as many. The frames of
  -- the list are in use that were not, no frame is in the list twice, and the use of the others is the
  -- same. If there are fewer than asked for, no frame is left.
  pub Taken : ℕ → Bool → List ℕ → Pmm → Pmm → Type 0
  Taken left all fs p q =
      ((g : ℕ) → used q g ≡ used p g + times g fs)
      × (q.frames ≡ p.frames)
      × (all ≡ true → length fs ≡ left)
      × (all ≡ false → (length fs < left) × ((g : ℕ) → g < p.frames → used q g ≢ 0))

  pub Expands : ℕ → ℕ → S → Pmm → Option (Bool × S × Pmm) → Type 0
  Expands left vaddr s p r =
      (all : Bool) × (fs : List ℕ) × (q : Pmm) × (r ≡ some (all, map_frames vaddr fs s, q))
      × Taken left all fs p q
