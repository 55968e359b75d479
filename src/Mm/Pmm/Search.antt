-- ===== src/Mm/Pmm/Search.antt =====
-- `pmm_first_free`: it ends, and a run that it returns is free.
use sysx.Base.{
  ℕ, zero, suc, ◌+◌, ◌-◌, ◌≤◌, ◌<◌, ◌≡◌, refl, ◌⊎◌, inl, inr, Option, some, arith, ltb, size_max,
  add_size, Bool-cases, ltb→lt, dec_lt,
}
use sysx.Mm.Pmm.{Pmm, Round, found, resume, run_break, probe, search, first_free}
use sysx.Mm.Pmm.Bitmap.{used, used-le, test-used, used_of_full}

-- Every frame of `[frame, frame + sz)` is free.
abbrev pub IsFreeRun : Pmm → ℕ → ℕ → Type 0
IsFreeRun p frame sz = (i : ℕ) → i < sz → used p (frame + i) ≡ 0

-- What the inner loop reports: no break and a free run, or the first frame in use.
abbrev Broken : Pmm → ℕ → ℕ → ℕ → ℕ → Type 0
Broken p frame i left r =
    ((r ≡ size_max) × ((j : ℕ) → i ≤ j → j < i + left → used p (frame + j) ≡ 0))
    ⊎ ((frame + i ≤ r) × (r < frame + i + left) × (used p r ≡ 1))

Broken-step :
    (p : Pmm) (frame i left r : ℕ)
    → used p (frame + i) ≡ 0
    → Broken p frame (i + 1) left r
    → Broken p frame i (suc left) r
Broken-step p frame i left r here (inl (e, rest)) = inl (e, go)
  where
    go : (j : ℕ) → i ≤ j → j < i + suc left → used p (frame + j) ≡ 0
    go j lo hi = elim (dec_lt i j) [
      | yes later ↦ rest j (omega arith) (omega arith)
      | no this ↦ let e : j ≡ i = omega arith in rw e here
    ]
Broken-step p frame i left r here (inr (lo, hi, taken)) = inr (omega arith, omega arith, taken)

module _ (p : Pmm) (frame i left : ℕ) (small : frame + i < size_max) where
  pub run_break_taken : used p (frame + i) ≡ 1 → run_break p frame i (suc left) ≡ frame + i
  unfolding run_break
  run_break_taken h =
      let at : add_size frame i ≡ frame + i = omega arith in
      rw at (ground (arith, test-used p (frame + i)))

  pub run_break_vacant :
      used p (frame + i) ≡ 0 → run_break p frame i (suc left) ≡ run_break p frame (i + 1) left
  unfolding run_break
  run_break_vacant h =
      let at : add_size frame i ≡ frame + i = omega arith in
      rw at (ground (arith, test-used p (frame + i), used_of_full p (frame + i)))

run_break-Broken :
    (p : Pmm) (frame i left : ℕ)
    → frame + i + left < size_max
    → Broken p frame i left (run_break p frame i left)
run_break-Broken p frame i zero small =
    inl (unfold run_break in refl, λ j lo hi. absurd (omega arith))
run_break-Broken p frame i (suc left) small = elim (dec_lt 0 (used p (frame + i))) [
  | yes h ↦
      let taken : used p (frame + i) ≡ 1 = omega (arith, used-le p (frame + i)) in
      rw (run_break_taken p frame i left (omega arith) taken)
        (inr (omega arith, omega arith, taken))
  | no h ↦
      let vacant : used p (frame + i) ≡ 0 = omega arith in
      rw (run_break_vacant p frame i left (omega arith) vacant)
        (Broken-step p frame i left _ vacant (run_break-Broken p frame (i + 1) left (omega arith)))
]

-- A round that ends the search has found a free run at its frame; any other moves on.
abbrev Probed : Pmm → ℕ → ℕ → Round → Type 0
Probed p sz frame (found f) = (f ≡ frame) × IsFreeRun p frame sz
Probed p sz frame (resume f) = (frame < f) × (f ≤ frame + sz + 1)

probe-Probed :
    (p : Pmm) (sz frame : ℕ) → frame + sz + 2 < size_max → Probed p sz frame (probe p sz frame)
unfolding probe
probe-Probed p sz frame small =
    ground (arith, test-used p frame, used-le p frame, run_break-Broken p frame 0 sz)

abbrev Searched : Pmm → ℕ → ℕ → Type 0
Searched p sz r = (r ≡ size_max) ⊎ ((r < p.frames) × IsFreeRun p r sz)

abbrev Finds : Pmm → ℕ → Option ℕ → Type 0
Finds p sz o = (r : ℕ) × (o ≡ some r) × Searched p sz r

-- The rest of the search after a round, as `search` goes on from it.
abbrev after : ℕ → Pmm → ℕ → Round → Option ℕ
after fuel p sz round = elim round [ found f ↦ some f | resume f ↦ search fuel p sz f ]

after-Finds :
    (fuel : ℕ) (p : Pmm) (sz frame : ℕ) (round : Round)
    → frame < p.frames
    → ((f : ℕ) → frame < f → Finds p sz (search fuel p sz f))
    → Probed p sz frame round
    → Finds p sz (after fuel p sz round)
after-Finds fuel p sz frame (found f) below rest (e, run) = (f, refl, inr (omega arith, rw e run))
after-Finds fuel p sz frame (resume f) below rest (lo, hi) = rest f lo

search-Searched :
    (fuel : ℕ) (p : Pmm) (sz frame : ℕ)
    → p.frames + sz + 2 < size_max
    → p.frames - frame < fuel
    → Finds p sz (search fuel p sz frame)
unfolding search
search-Searched zero p sz frame small fuel = elim fuel [ ]
search-Searched (suc k) p sz frame small fuel = elim (Bool-cases (ltb frame p.frames)) [
  | inl more ↦
      let below = ltb→lt frame p.frames more in
      rw more (
        after-Finds k p sz frame (probe p sz frame) below
          (λ f lo. search-Searched k p sz f small (omega arith))
          (probe-Probed p sz frame (omega arith)))
  | inr done ↦ (size_max, rw done, inl refl)
]

-- With `pmm_frames + sz` below 2^32 - 3, `pmm_first_free` returns `(size_t)-1` or the first frame
-- of a run of `sz` free frames that begins below `pmm_frames`.
pub first_free-IsFreeRun :
    (p : Pmm) (sz : ℕ)
    → p.frames + sz + 2 < size_max
    → (r : ℕ) × (first_free p sz ≡ some r) × ((r ≡ size_max) ⊎ ((r < p.frames) × IsFreeRun p r sz))
unfolding first_free
first_free-IsFreeRun p sz small = search-Searched (p.frames + 1) p sz 0 small (omega arith)
