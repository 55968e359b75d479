-- ===== src/Mm/Pmm/FirstFit.antt =====
-- Which free run `pmm_first_free` returns: the first one for single frames, not always for more.
use sysx.Base.{
  ℕ, zero, suc, ◌+◌, ◌-◌, ◌≤◌, ◌<◌, ◌≡◌, refl, ◌⊎◌, inl, inr, some, arith, ltb, size_max,
  Bool-cases, dec_lt, ltb→lt, ◌∙◌,
}
use sysx.Mm.Pmm.{Pmm, found, resume, run_break, probe, search, first_free}
use sysx.Mm.Pmm.Bitmap.{used, used-le, test-used, used_of_full}
use sysx.Mm.Pmm.Search.{IsFreeRun, run_break_taken, run_break_vacant}

abbrev pub AllUsed : Pmm → ℕ → ℕ → Type 0
AllUsed p lo hi = (g : ℕ) → lo ≤ g → g < hi → used p g ≡ 1

-- The inner loop reports the first frame in use of the run.
run_break-at :
    (p : Pmm) (frame i d left : ℕ)
    → frame + i + d < size_max
    → d < left
    → ((j : ℕ) → i ≤ j → j < i + d → used p (frame + j) ≡ 0)
    → used p (frame + (i + d)) ≡ 1
    → run_break p frame i left ≡ frame + (i + d)
run_break-at p frame i d zero small fits vacant taken = absurd (omega arith)
run_break-at p frame i zero (suc left) small fits vacant taken =
    let e : i + 0 ≡ i = omega arith in
    rw e (run_break_taken p frame i left (omega arith) (rw e at taken))
run_break-at p frame i (suc d) (suc left) small fits vacant taken =
    let e : i + suc d ≡ i + 1 + d = omega arith in
    run_break_vacant p frame i left (omega arith) (vacant i (omega arith) (omega arith))
    ∙ rw e (
        run_break-at p frame (i + 1) d left (omega arith) (omega arith)
          (λ j lo hi. vacant j (omega arith) (omega arith)) (rw e at taken))

start : (p : Pmm) (frame : ℕ) → used p (frame + 0) ≡ 0 → used p frame ≡ 0
start p frame h = let e : frame + 0 ≡ frame = omega arith in rw e at h

start' : (p : Pmm) (frame : ℕ) → used p frame ≡ 0 → used p (frame + 0) ≡ 0
start' p frame h = let e : frame + 0 ≡ frame = omega arith in rw e h

probe_taken :
    (p : Pmm) (sz frame : ℕ)
    → frame + 1 < size_max
    → used p frame ≡ 1
    → probe p sz frame ≡ resume (frame + 1)
unfolding probe
probe_taken p sz frame small taken = ground (arith, test-used p frame)

-- A search that meets no free frame fails.
search-AllUsed :
    (fuel : ℕ) (p : Pmm) (sz frame : ℕ)
    → p.frames + 2 < size_max
    → p.frames - frame < fuel
    → AllUsed p frame p.frames
    → search fuel p sz frame ≡ some size_max
unfolding search
search-AllUsed zero p sz frame small enough taken = elim enough [ ]
search-AllUsed (suc k) p sz frame small enough taken = elim (Bool-cases (ltb frame p.frames)) [
  | inl more ↦
      let below = ltb→lt frame p.frames more in
      rw (more, probe_taken p sz frame (omega arith) (taken frame (omega arith) below))
        (search-AllUsed k p sz (frame + 1) small (omega arith)
          (λ g lo hi. taken g (omega arith) hi))
  | inr done ↦ rw done
]

search-resume :
    (k : ℕ) (p : Pmm) (sz frame f : ℕ)
    → frame < p.frames
    → probe p sz frame ≡ resume f
    → search (suc k) p sz frame ≡ search k p sz f
unfolding search
search-resume k p sz frame f below e = rw e (ground arith)

-- Where a run of `sz` frames from a free frame breaks at its `i`-th frame, the search goes on two
-- frames after the break: the frame right after it is not tried as the start of a run.
pub probe_skips :
    (p : Pmm) (sz frame i : ℕ)
    → frame + i + 2 < size_max
    → 0 < i
    → i < sz
    → IsFreeRun p frame i
    → used p (frame + i) ≡ 1
    → probe p sz frame ≡ resume (frame + i + 2)
unfolding probe
probe_skips p sz frame i small pos fits vacant taken =
    let here : used p frame ≡ 0 = start p frame (vacant 0 pos) in
    let break : run_break p frame 0 sz ≡ frame + i =
      let e : 0 + i ≡ i = omega arith in
      rw e at (
        run_break-at p frame 0 i sz (omega arith) fits (λ j lo hi. vacant j (omega arith))
          (rw e taken)) in
    ground (arith, break, test-used p frame, used_of_full p frame)

probe-one :
    (p : Pmm) (frame : ℕ) → frame + 2 < size_max → used p frame ≡ 0 → probe p 1 frame ≡ found frame
unfolding probe run_break
probe-one p frame small vacant =
    let whole : run_break p frame 0 1 ≡ size_max =
      run_break_vacant p frame 0 0 (omega arith) (start' p frame vacant) in
    ground (arith, whole, test-used p frame, used_of_full p frame)

-- The first free frame from `frame` on, or none.
abbrev pub IsFirstFree : Pmm → ℕ → ℕ → Type 0
IsFirstFree p frame r =
    ((r < p.frames) × (used p r ≡ 0) × AllUsed p frame r)
    ⊎ ((r ≡ size_max) × AllUsed p frame p.frames)

AllUsed-step : (p : Pmm) (lo hi : ℕ) → used p lo ≡ 1 → AllUsed p (lo + 1) hi → AllUsed p lo hi
AllUsed-step p lo hi taken rest g l h = elim (dec_lt lo g) [
  | yes later ↦ rest g (omega arith) h
  | no this ↦ let e : g ≡ lo = omega arith in rw e taken
]

IsFirstFree-step :
    (p : Pmm) (frame r : ℕ) → used p frame ≡ 1 → IsFirstFree p (frame + 1) r → IsFirstFree p frame r
IsFirstFree-step p frame r taken (inl (below, vacant, rest)) =
    inl (below, vacant, AllUsed-step p frame r taken rest)
IsFirstFree-step p frame r taken (inr (e, rest)) = inr (e, AllUsed-step p frame p.frames taken rest)

search-one :
    (fuel : ℕ) (p : Pmm) (frame : ℕ)
    → p.frames + 3 < size_max
    → p.frames - frame < fuel
    → (r : ℕ) × (search fuel p 1 frame ≡ some r) × IsFirstFree p frame r
unfolding search
search-one zero p frame small enough = elim enough [ ]
search-one (suc k) p frame small enough = elim (Bool-cases (ltb frame p.frames)) [
  | inl more ↦
      let below = ltb→lt frame p.frames more in
      elim (dec_lt 0 (used p frame)) [
        | yes h ↦
            let taken : used p frame ≡ 1 = omega (arith, used-le p frame) in
            let (r, e, first) = search-one k p (frame + 1) small (omega arith) in
            (
              r,
              rw (more, probe_taken p 1 frame (omega arith) taken) e,
              IsFirstFree-step p frame r taken first,
            )
        | no h ↦
            let vacant : used p frame ≡ 0 = omega arith in
            (
              frame,
              rw (more, probe-one p frame (omega arith) vacant),
              inl (below, vacant, λ g lo hi. absurd (omega arith)),
            )
      ]
  | inr done ↦ (size_max, rw done, inr (refl, λ g lo hi. absurd (ground arith)))
]

-- For one frame, and fewer than 2^32 - 4 frames, `pmm_first_free` is first fit: it returns
-- the lowest free frame below `pmm_frames`, and `(size_t)-1` exactly if there is none.
pub first_free-one :
    (p : Pmm)
    → p.frames + 3 < size_max
    → (r : ℕ) × (first_free p 1 ≡ some r)
      × (((r < p.frames) × (used p r ≡ 0) × AllUsed p 0 r)
          ⊎ ((r ≡ size_max) × AllUsed p 0 p.frames))
unfolding first_free
first_free-one p small = search-one (p.frames + 1) p 0 small (omega arith)

-- With frames 0, 2 and 3 free and all others in use, a request of `pmm_first_free` for two frames
-- fails, although frames 2 and 3 would do.
pub first_free-misses :
    (p : Pmm)
    → p.frames + 4 < size_max
    → 4 < p.frames
    → used p 0 ≡ 0
    → used p 1 ≡ 1
    → used p 2 ≡ 0
    → used p 3 ≡ 0
    → AllUsed p 4 p.frames
    → (first_free p 2 ≡ some size_max) × IsFreeRun p 2 2
unfolding first_free
first_free-misses p small big u0 u1 u2 u3 rest = (fails, pair)
  where
    pair : IsFreeRun p 2 2
    pair zero h = u2
    pair (suc zero) h = u3
    pair (suc (suc i)) h = absurd (omega arith)

    from_zero : probe p 2 0 ≡ resume 3
    from_zero =
        probe_skips p 2 0 1 (omega arith) (omega arith) (omega arith)
          (λ j h. let e : 0 + j ≡ 0 = omega arith in rw e u0) u1

    from_three : probe p 2 3 ≡ resume 6
    from_three =
        probe_skips p 2 3 1 (omega arith) (omega arith) (omega arith)
          (λ j h. let e : 3 + j ≡ 3 = omega arith in rw e u3) (rest 4 (omega arith) big)

    fails : search (p.frames + 1) p 2 0 ≡ some size_max
    fails =
        let fuel : p.frames + 1 ≡ suc (suc (p.frames - 1)) = omega arith in
        rw fuel (
          search-resume (suc (p.frames - 1)) p 2 0 3 (omega arith) from_zero
          ∙ search-resume (p.frames - 1) p 2 3 6 (omega arith) from_three
          ∙ search-AllUsed (p.frames - 1) p 2 6 (omega arith) (omega arith)
              (λ g lo hi. rest g (omega arith) hi))
