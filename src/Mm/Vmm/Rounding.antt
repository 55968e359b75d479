-- ===== src/Mm/Vmm/Rounding.antt =====
-- `vmm_map`: how a range is rounded, and which page size is taken next.
use sysx.Base.{
  ℕ, zero, suc, ◌+◌, ◌-◌, ◌*◌, ◌/◌, ◌%◌, ◌<◌, ◌≤◌, ◌≡◌, refl, inl, inr, some, arith, ltb, ◌!=◌,
  Bool-cases, true, false, add_size, if_both,
}
use sysx.Mm.Vmm.{pgsz, pick, fits, fit_idx, round_map, round_up}

fits-le :
    (i pa va va_end : ℕ)
    → i ≤ 1
    → va < va_end
    → va_end ≤ 0xffc0_0000
    → fits i pa va va_end ≡ true
    → (va + pgsz i ≤ va_end) × (pa % pgsz i ≡ 0) × (va % pgsz i ≡ 0)
fits-le zero pa va va_end one below small h = (ground arith, ground arith, ground arith)
fits-le (suc zero) pa va va_end one below small h = (ground arith, ground arith, ground arith)
fits-le (suc (suc i)) pa va va_end one below small h = absurd (omega arith)

fits-zero :
    (pa va va_end : ℕ)
    → va < va_end
    → va_end ≤ 0xffc0_0000
    → pa % 4096 ≡ 0
    → va % 4096 ≡ 0
    → va_end % 4096 ≡ 0
    → fits zero pa va va_end ≡ true
fits-zero pa va va_end below small p v e = ground arith

pub pick_lem :
    (max pa va va_end : ℕ)
    → max ≤ 1
    → va < va_end
    → va_end ≤ 0xffc0_0000
    → pa % 4096 ≡ 0
    → va % 4096 ≡ 0
    → va_end % 4096 ≡ 0
    → (i : ℕ) × (pick max pa va va_end ≡ some i)
      × (i ≤ max)
      × ((va + pgsz i ≤ va_end) × (pa % pgsz i ≡ 0) × (va % pgsz i ≡ 0))
unfolding pick
pick_lem zero pa va va_end one below small p v e =
    let h = fits-zero pa va va_end below small p v e in
    (0, rw h refl, omega arith, fits-le 0 pa va va_end (omega arith) below small h)
pick_lem (suc i) pa va va_end one below small p v e =
    elim (Bool-cases (fits (suc i) pa va va_end)) [
      | inl h ↦ (suc i, rw h refl, omega arith, fits-le (suc i) pa va va_end one below small h)
      | inr h ↦
          let (j, at, one', fit) = pick_lem i pa va va_end (omega arith) below small p v e in
          (j, rw h at, omega arith, fit)
    ]

pub pgsz-page : (i : ℕ) → i ≤ 1 → (pgsz i % 4096 ≡ 0) × (4096 ≤ pgsz i)
pgsz-page zero h = (omega arith, omega arith)
pgsz-page (suc zero) h = (omega arith, omega arith)
pgsz-page (suc (suc i)) h = absurd (omega arith)

pub fit_idx-le : (max sz : ℕ) → fit_idx max sz ≤ max
unfolding fit_idx
fit_idx-le zero sz = omega arith
fit_idx-le (suc i) sz =
    if_both (λ k. k ≤ suc i) (ltb sz (pgsz (suc i))) (fit_idx i sz) (suc i)
      (omega (arith, fit_idx-le i sz)) (omega arith)

-- The rounding of `vmm_map` for an aligned virtual address.
pub round_map_lem :
    (pa va sz : ℕ)
    → va % 4096 ≡ 0
    → sz + pa % 4096 < 0x1_0000_0000
    → round_map pa va sz
      ≡ record { pa = pa - pa % 4096; va = va; sz = round_up (sz + pa % 4096); delta = pa % 4096 }
unfolding round_map
round_map_lem pa va sz v room = elim (Bool-cases (pa % 4096 != 0)) [
  | inl odd ↦
      let e : va % 4096 != 0 ≡ false = ground arith in
      let p : pa / 4096 * 4096 ≡ pa - pa % 4096 = omega arith in
      let d : pa - (pa - pa % 4096) ≡ pa % 4096 = omega arith in
      let z : add_size sz (pa % 4096) ≡ sz + pa % 4096 = omega arith in rw (odd, e, p, d, z) refl
  | inr even ↦
      let e : va % 4096 != 0 ≡ false = ground arith in
      let o : pa % 4096 ≡ 0 = ground arith in
      let z : add_size sz 0 ≡ sz + 0 = omega arith in
      let m : pa - 0 ≡ pa = omega arith in rw (even, e, o, z, m) refl
]

pub round_up-page : (sz : ℕ) → sz + 4096 < 0x1_0000_0000 → round_up sz % 4096 ≡ 0
round_up-page sz h = ground arith

pub round_up-bounds :
    (sz : ℕ) → sz + 4096 < 0x1_0000_0000 → (sz ≤ round_up sz) × (round_up sz < sz + 4096)
round_up-bounds sz h = (ground arith, ground arith)

pub pgsz-le : (i : ℕ) → i ≤ 1 → pgsz i ≤ 0x40_0000
pgsz-le zero h = omega arith
pgsz-le (suc zero) h = omega arith
pgsz-le (suc (suc i)) h = absurd (omega arith)

-- The number of pages that `sz` bytes take.
abbrev pub page_count : ℕ → ℕ
page_count sz = (sz + 4095) / 4096

pub round_up-pages : (sz : ℕ) → sz + 4096 < 0x1_0000_0000 → round_up sz ≡ page_count sz * 4096
round_up-pages sz small = ground arith
