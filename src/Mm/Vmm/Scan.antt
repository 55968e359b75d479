-- ===== src/Mm/Vmm/Scan.antt =====
-- The rounds of `vmm_first_free`, searching upwards without an alignment.
use sysx.Base.{
  ℕ, zero, suc, ◌+◌, ◌-◌, ◌*◌, ◌<◌, ◌≤◌, ◌≡◌, ◌≢◌, refl, ◌⊎◌, inl, inr, ◌&&◌, some, Option, arith,
  leb, ◌==◌, true, false, add_size, mul_size, size_max, Bool-cases, dec_lt,
}
use sysx.Mm.Vmm.{Target, scan, skip}

module _ {S : Type 0} (t : Target S) (vmm : ℕ) (s : S) where
  -- `n` pages from page number `p` on are not mapped.
  abbrev pub IsRun : ℕ → ℕ → Type 0
  IsRun p n = (i : ℕ) → i < n → t.get_pgsz s vmm ((p + i) * 4096) ≡ size_max

  -- No such run begins from `lo` on and below `hi`.
  abbrev pub NoRun : ℕ → ℕ → ℕ → Type 0
  NoRun lo hi n = (p : ℕ) → lo ≤ p → p < hi → ¬ IsRun p n

  -- What the search for `n` pages within the page numbers from `lo` to `hi` comes to.
  abbrev pub IsFirst : ℕ → ℕ → ℕ → ℕ → Type 0
  IsFirst lo hi n r =
      ((p : ℕ) × (r ≡ p * 4096) × (lo ≤ p) × (p + n ≤ hi) × IsRun p n × NoRun lo p n)
      ⊎ ((r ≡ 0) × ((p : ℕ) → lo ≤ p → p + n ≤ hi → ¬ IsRun p n))

  -- A page in use ends every run across it.
  NoRun-skip :
      (lo result blk n : ℕ)
      → blk < n
      → t.get_pgsz s vmm ((result + blk) * 4096) ≢ size_max
      → NoRun lo result n
      → NoRun lo (result + (blk + 1)) n
  NoRun-skip lo result blk n small taken before p l h run = elim (dec_lt p result) [
    | yes earlier ↦ before p l earlier run
    | no after ↦
        let e : p + (result + blk - p) ≡ result + blk = omega arith in
        taken (rw e at (run (result + blk - p) (omega arith)))
  ]

  IsRun-more :
      (result blk : ℕ)
      → t.get_pgsz s vmm ((result + blk) * 4096) ≡ size_max
      → IsRun result blk
      → IsRun result (blk + 1)
  IsRun-more result blk free run i h = elim (dec_lt i blk) [
    | yes before ↦ run i before
    | no last ↦ let e : i ≡ blk = omega arith in rw e free
  ]

  module _ (lo hi n : ℕ) (small : hi ≤ 0x10_0000) (fit : n ≤ 0x10_0000) where
    abbrev Searched : Option ℕ → Type 0
    Searched o = (r : ℕ) × (o ≡ some r) × IsFirst lo hi n r

    abbrev page_at : ℕ → ℕ → ℕ
    page_at result blk = mul_size (add_size result blk) 4096

    scan_end :
        (fuel result blk : ℕ)
        → leb lo result && leb (add_size result n) hi ≡ false
        → scan t vmm (suc fuel) false 0 lo hi n result blk s ≡ some 0
    unfolding scan
    scan_end fuel result blk stop = rw (scan, stop) refl

    scan_taken :
        (fuel result blk : ℕ)
        → leb lo result && leb (add_size result n) hi ≡ true
        → (t.get_pgsz s vmm ((result + blk) * 4096) == size_max) ≡ false
        → result + blk < 0x10_0000
        → scan t vmm (suc fuel) false 0 lo hi n result blk s
          ≡ scan t vmm fuel false 0 lo hi n (result + (blk + 1)) 0 s
    unfolding scan skip
    scan_taken fuel result blk go taken low =
        let at : page_at result blk ≡ (result + blk) * 4096 = omega arith in
        let to : add_size result (blk + 1) ≡ result + (blk + 1) = omega arith in
        rw (scan, go, at, taken, to) refl

    scan_more :
        (fuel result blk : ℕ)
        → leb lo result && leb (add_size result n) hi ≡ true
        → (t.get_pgsz s vmm ((result + blk) * 4096) == size_max) ≡ true
        → result + blk < 0x10_0000
        → (blk + 1 == n) ≡ false
        → scan t vmm (suc fuel) false 0 lo hi n result blk s
          ≡ scan t vmm fuel false 0 lo hi n result (blk + 1) s
    unfolding scan
    scan_more fuel result blk go free low more =
        let at : page_at result blk ≡ (result + blk) * 4096 = omega arith in
        rw (scan, go, at, free, more) refl

    scan_found :
        (fuel result blk : ℕ)
        → leb lo result && leb (add_size result n) hi ≡ true
        → (t.get_pgsz s vmm ((result + blk) * 4096) == size_max) ≡ true
        → result + blk < 0x10_0000
        → (blk + 1 == n) ≡ true
        → scan t vmm (suc fuel) false 0 lo hi n result blk s ≡ some (result * 4096)
    unfolding scan
    scan_found fuel result blk go free low whole =
        let at : page_at result blk ≡ (result + blk) * 4096 = omega arith in
        let there : mul_size result 4096 ≡ result * 4096 = omega arith in
        rw (scan, go, at, free, whole, there) refl

    pub scan-first :
        (fuel result blk : ℕ)
        → blk < n
        → lo ≤ result
        → result ≤ 0x10_0000
        → hi - (result + blk) < fuel
        → IsRun result blk
        → NoRun lo result n
        → Searched (scan t vmm fuel false 0 lo hi n result blk s)
    scan-first zero result blk bn lr rh enough run before = elim enough [ ]
    scan-first (suc k) result blk bn lr rh enough run before =
        elim (Bool-cases (leb lo result && leb (add_size result n) hi)) [
          | inr stop ↦
              let over : hi < result + n = ground arith in
              (0, scan_end k result blk stop, inr (refl, λ p l h. before p l (omega arith)))
          | inl go ↦
              let inside : result + n ≤ hi = ground arith in
              let low : result + blk < 0x10_0000 = omega arith in
              elim (Bool-cases (t.get_pgsz s vmm ((result + blk) * 4096) == size_max)) [
                | inr taken ↦ rw (scan_taken k result blk go taken low) (
                    scan-first k (result + (blk + 1)) 0 (omega arith) (omega arith) (omega arith)
                      (omega arith) (λ i h. elim h [ ])
                      (NoRun-skip lo result blk n bn (λ e. ground arith) before))
                | inl free ↦
                    let is_free : t.get_pgsz s vmm ((result + blk) * 4096) ≡ size_max =
                      ground arith in
                    elim (Bool-cases (blk + 1 == n)) [
                      | inr more ↦ rw (scan_more k result blk go free low more) (
                          scan-first k result (blk + 1) (ground arith) lr rh (omega arith)
                            (IsRun-more result blk is_free run) before)
                      | inl whole ↦
                          let e : blk + 1 ≡ n = ground arith in
                          (
                            result * 4096,
                            scan_found k result blk go free low whole,
                            inl (
                              result,
                              refl,
                              lr,
                              inside,
                              rw e at (IsRun-more result blk is_free run),
                              before,
                            ),
                          )
                    ]
              ]
        ]
