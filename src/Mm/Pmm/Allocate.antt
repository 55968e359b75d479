-- ===== src/Mm/Pmm/Allocate.antt =====
-- `pmm_alloc_free`: the run that it returns was free and is in use afterwards, and nothing else changes.
use sysx.Base.{
  ap, sym, none, ℕ, zero, suc, ◌+◌, ◌<◌, ◌≡◌, ◌≢◌, refl, ◌∙◌, ◌⊎◌, inl, inr, ◌&&◌, Option, some,
  arith, ltb, leb, ◌!=◌, if◌then◌else◌, size_max, add_size,
}
use sysx.Mm.Pmm.{Pmm, alloc, alloc_run, first_free, alloc_free}
use sysx.Mm.Pmm.Bitmap.{used, alloc_lem}
use sysx.Mm.Pmm.FirstFit.{first_free-one}
use sysx.Mm.Pmm.Search.{IsFreeRun, first_free-IsFreeRun}

frames-alloc : (p : Pmm) (f : ℕ) → (alloc p f).1.frames ≡ p.frames
unfolding alloc
frames-alloc p f = ground arith

alloc_run_lem :
    (p : Pmm) (frame i left g : ℕ)
    → frame + i + left < size_max
    → used (alloc_run p frame i left) g
      ≡ (if leb (frame + i) g && ltb g (frame + i + left) then 1 else used p g)
unfolding alloc_run
alloc_run_lem p frame i zero g small = ground arith
alloc_run_lem p frame i (suc left) g small = ground (
  arith,
  alloc_run_lem (alloc p (add_size frame i)).1 frame (i + 1) left g,
  (alloc_lem p (add_size frame i)).1 g,
)

abbrev Allocated : Pmm → ℕ → ℕ → Pmm → Type 0
Allocated p sz r q =
    (r < p.frames)
    × IsFreeRun p r sz
    × ((g : ℕ) → used q g ≡ (if leb r g && ltb g (r + sz) then 1 else used p g))

alloc_run-Allocated :
    (p : Pmm) (sz r : ℕ)
    → p.frames + sz + 2 < size_max
    → r < p.frames
    → IsFreeRun p r sz
    → Allocated p sz r (alloc_run p r 0 sz)
alloc_run-Allocated p sz r small below run =
    (below, run, λ g. ground (arith, alloc_run_lem p r 0 sz g))

-- With `pmm_frames + sz` below 2^32 - 3, `pmm_alloc_free` returns a run of `sz` frames that was
-- free and marks exactly these in use, or returns `(size_t)-1` and changes nothing.
pub alloc_free_lem :
    (p : Pmm) (sz : ℕ)
    → p.frames + sz + 2 < size_max
    → (r : ℕ) × (q : Pmm) × (alloc_free p sz ≡ some (r, q))
      × (((r ≡ size_max) × (q ≡ p))
          ⊎ ((r < p.frames)
              × IsFreeRun p r sz
              × ((g : ℕ) → used q g ≡ (if leb r g && ltb g (r + sz) then 1 else used p g))))
unfolding alloc_free
alloc_free_lem p sz small =
    let (r, e, s) = first_free-IsFreeRun p sz small in rw (e, alloc_free) (choose r s)
  where
    choose :
        (r : ℕ)
        → (r ≡ size_max) ⊎ ((r < p.frames) × IsFreeRun p r sz)
        → (r' : ℕ) × (q : Pmm) × (◌≡◌ {A = Option (ℕ × Pmm)}
            (some (r, if r != size_max then alloc_run p r 0 sz else p))
            (some (r', q)))
          × (((r' ≡ size_max) × (q ≡ p)) ⊎ Allocated p sz r' q)
    choose r (inl none_left) = (r, p, ground arith, inl (none_left, refl))
    choose r (inr (below, run)) =
        (r, alloc_run p r 0 sz, ground arith, inr (alloc_run-Allocated p sz r small below run))

-- With a free frame, a request for one frame gets one.
pub alloc_free-one :
    (p : Pmm) (g : ℕ)
    → p.frames + 3 < size_max
    → g < p.frames
    → used p g ≡ 0
    → (r : ℕ) × (q : Pmm) × (alloc_free p 1 ≡ some (r, q)) × (r ≢ size_max)
unfolding alloc_free
alloc_free-one p g small below vacant =
    let (r, e, first) = first_free-one p small in
    (
      r,
      (if r != size_max then alloc_run p r 0 1 else p),
      rw (alloc_free, e) refl,
      λ none_left. elim first [
        | inl (low, vacant', rest) ↦ omega arith
        | inr (end, all) ↦ omega (arith, all g (omega arith) below)
      ],
    )

frames-alloc_run : (left i frame : ℕ) (p : Pmm) → (alloc_run p frame i left).frames ≡ p.frames
unfolding alloc_run
frames-alloc_run zero i frame p = refl
frames-alloc_run (suc left) i frame p =
    frames-alloc_run left (i + 1) frame (alloc p (add_size frame i)).1
    ∙ frames-alloc p (add_size frame i)

pub frames-alloc_free : (p q : Pmm) (sz r : ℕ) → alloc_free p sz ≡ some (r, q) → q.frames ≡ p.frames
unfolding alloc_free
frames-alloc_free p q sz r e = taken (first_free p sz) e
  where
    taken :
        (o : Option ℕ)
        → ◌≡◌ {A = Option (ℕ × Pmm)}
            (elim o [
              | none ↦ none
              | some frame ↦ some (frame, if frame != size_max then alloc_run p frame 0 sz else p)
            ])
            (some (r, q))
        → q.frames ≡ p.frames
    taken none e = absurd (ground (arith, e))
    taken (some frame) e =
        ap (λ o. elim o [ none ↦ p.frames | some x ↦ x.1.frames ]) (sym e)
        ∙ ground (arith, frames-alloc_run sz 0 frame p)
