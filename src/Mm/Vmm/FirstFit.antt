-- ===== src/Mm/Vmm/FirstFit.antt =====
-- `vmm_first_free` and `vmm_alloc_map`, searching upwards without an alignment.
use sysx.Base.{
  ℕ, suc, ◌+◌, ◌-◌, ◌*◌, ◌/◌, ◌%◌, ◌<◌, ◌≤◌, ◌≡◌, refl, ◌⊎◌, Option, none, some, arith, List, ◌==◌,
  if◌then◌else◌, false, add_size,
}
use sysx.Mm.Vmm.{Target, scan, first_free}
use sysx.Mm.Vmm.Rounding.{page_count}
use sysx.Mm.Vmm.Pages.{Page, Tiles, map_all}
use sysx.Mm.Vmm.Scan.{IsRun, IsFirst, scan-first}

-- The first page that is looked at.
abbrev pub first_page : ℕ → ℕ
first_page va_start = if va_start == 0 then 1 else (va_start + 4095) / 4096

module _ {S : Type 0} (t : Target S) (vmm : ℕ) (s : S) where
  first_free-pages :
      (fuel va_start va_end sz p : ℕ)
      → (if va_start == 0 then 1 else add_size va_start 4095 / 4096) ≡ first_page va_start
      → add_size sz 4095 / 4096 ≡ suc p
      → first_free t vmm fuel va_start va_end sz 0 false s
        ≡ scan t vmm fuel false 0
            (first_page va_start)
            (va_end / 4096)
            (suc p)
            (first_page va_start)
            0
            s
  unfolding first_free
  first_free-pages fuel va_start va_end sz p lo e =
      let z : 0 / suc p ≡ 0 = omega arith in rw (first_free, e, lo, z) refl

  -- Without an alignment and searching upwards, `vmm_first_free` is first fit: it returns the
  -- lowest address in the range at which the pages for `sz` bytes are not mapped, and 0 exactly if
  -- there is none. It ends after a round for every page below the end of the range and one more.
  pub first_free-IsFirst :
      (fuel va_start va_end sz : ℕ)
      → va_start + 4095 < 0x1_0000_0000
      → va_end < 0x1_0000_0000
      → 0 < sz
      → sz + 4095 < 0x1_0000_0000
      → va_end / 4096 < fuel
      → (r : ℕ) × (first_free t vmm fuel va_start va_end sz 0 false s ≡ some r)
        × IsFirst t vmm s (first_page va_start) (va_end / 4096) (page_count sz) r
  first_free-IsFirst fuel va_start va_end sz start end pos size enough =
      let low : (if va_start == 0 then 1 else add_size va_start 4095 / 4096) ≡ first_page va_start =
        ground arith in
      let count : add_size sz 4095 / 4096 ≡ suc (page_count sz - 1) = omega arith in
      let n : page_count sz ≡ suc (page_count sz - 1) = omega arith in
      rw (first_free-pages fuel va_start va_end sz (page_count sz - 1) low count, ← n)
        (scan-first t vmm s (first_page va_start) (va_end / 4096) (page_count sz) (omega arith)
          (omega arith) fuel (first_page va_start) 0 (omega arith) (omega arith) (ground arith)
          (omega arith) (λ i h. elim h [ ]) (λ p l h. absurd (omega arith)))

module _ {S : Type 0} (t : Target S) (vmm : ℕ) (s : S) where
  -- What `vmm_alloc_map` leaves behind: nothing is changed and no run of pages was free, or the first
  -- run that was free has been mapped to the physical range, page by page.
  unfoldable pub AllocMapped : ℕ → ℕ → ℕ → ℕ → ℕ → ℕ → Option (ℕ × S) → Type 0
  AllocMapped max flags pa sz lo hi none = ⊥
  AllocMapped max flags pa sz lo hi (some (r, s')) =
      ((r ≡ 0)
        × (s' ≡ s)
        × ((p : ℕ)
            → lo ≤ p
            → p + page_count (sz + pa % 4096) ≤ hi
            → ¬ IsRun t vmm s p (page_count (sz + pa % 4096))))
      ⊎ ((p : ℕ) × (r ≡ p * 4096 + pa % 4096)
          × (lo ≤ p)
          × (p + page_count (sz + pa % 4096) ≤ hi)
          × IsRun t vmm s p (page_count (sz + pa % 4096))
          × ((i : ℕ) → lo ≤ i → i < p → ¬ IsRun t vmm s i (page_count (sz + pa % 4096)))
          × (gs : List Page) × (s' ≡ map_all t vmm flags gs s)
          × Tiles max (pa - pa % 4096) (p * 4096) (p * 4096 + page_count (sz + pa % 4096) * 4096)
              gs)
