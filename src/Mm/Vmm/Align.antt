-- ===== src/Mm/Vmm/Align.antt =====
-- `vmm_first_free`: what becomes of the alignment.
use sysx.Base.{
  ℕ, zero, suc, ◌+◌, ◌-◌, ◌*◌, ◌/◌, ◌<◌, ◌≤◌, ◌≡◌, refl, ◌&&◌, some, arith, leb, ◌==◌,
  if◌then◌else◌, true, false, add_size, mul_size, size_max, Bool-cases, inl, inr,
}
use sysx.Mm.Vmm.{Target, scan, first_free}
use sysx.Mm.Vmm.Scan.{IsRun}
use sysx.Mm.Vmm.FirstFit.{first_page}
use sysx.Mm.Vmm.Rounding.{page_count}

module _ {S : Type 0} (t : Target S) (vmm : ℕ) (s : S) where
  module _ (align lo hi n : ℕ) (small : hi ≤ 0x10_0000) (run : IsRun t vmm s lo n) where
    scan-run :
        (fuel blk : ℕ)
        → blk < n
        → lo + n ≤ hi
        → n - blk ≤ fuel
        → scan t vmm fuel false align lo hi n lo blk s ≡ some (lo * 4096)
    unfolding scan
    scan-run zero blk bn inside enough = absurd (omega arith)
    scan-run (suc k) blk bn inside enough =
        let go : leb lo lo && leb (add_size lo n) hi ≡ true = ground arith in
        let at : mul_size (add_size lo blk) 4096 ≡ (lo + blk) * 4096 = omega arith in
        let there : mul_size lo 4096 ≡ lo * 4096 = omega arith in
        let free : (t.get_pgsz s vmm ((lo + blk) * 4096) == size_max) ≡ true =
          ground (arith, run blk bn) in
        elim (Bool-cases (blk + 1 == n)) [
          | inl whole ↦ rw (scan, go, at, free, whole, there) refl
          | inr more ↦
              rw (scan, go, at, free, more)
                (scan-run k (blk + 1) (ground arith) inside (omega arith))
        ]

  first_free-scan :
      (fuel va_start va_end sz align p : ℕ)
      → (if va_start == 0 then 1 else add_size va_start 4095 / 4096) ≡ first_page va_start
      → add_size sz 4095 / 4096 ≡ suc p
      → first_free t vmm fuel va_start va_end sz align false s
        ≡ scan t vmm fuel false
            (align / suc p)
            (first_page va_start)
            (va_end / 4096)
            (suc p)
            (first_page va_start)
            0
            s
  unfolding first_free
  first_free-scan fuel va_start va_end sz align p lo e = rw (first_free, e, lo) refl

  -- If the first pages of the range are not mapped, `vmm_first_free` searching upwards returns their
  -- address, whatever alignment is asked for.
  pub first_free-start :
      (fuel va_start va_end sz align : ℕ)
      → va_start + 4095 < 0x1_0000_0000
      → va_end < 0x1_0000_0000
      → 0 < sz
      → sz + 4095 < 0x1_0000_0000
      → first_page va_start + page_count sz ≤ va_end / 4096
      → page_count sz ≤ fuel
      → IsRun t vmm s (first_page va_start) (page_count sz)
      → first_free t vmm fuel va_start va_end sz align false s ≡ some (first_page va_start * 4096)
  first_free-start fuel va_start va_end sz align start end pos size inside enough run =
      let low : (if va_start == 0 then 1 else add_size va_start 4095 / 4096) ≡ first_page va_start =
        ground arith in
      let count : add_size sz 4095 / 4096 ≡ suc (page_count sz - 1) = omega arith in
      let n : page_count sz ≡ suc (page_count sz - 1) = omega arith in
      rw (first_free-scan fuel va_start va_end sz align (page_count sz - 1) low count) (
        scan-run (align / suc (page_count sz - 1)) (first_page va_start) (va_end / 4096)
          (suc (page_count sz - 1)) (omega arith) (rw n at run) fuel 0 (omega arith) (omega arith)
          (omega arith))
