-- ===== src/Mm/Vmm/Mapping.antt =====
-- `vmm_map`: which pages a call maps, and where to.
use sysx.Base.{
  ℕ, zero, suc, ◌+◌, ◌-◌, ◌/◌, ◌%◌, ◌<◌, ◌≤◌, ◌≡◌, refl, inl, inr, Option, some, List, [], ◌∷◌,
  arith, leb, ltb, if◌then◌else◌, Bool-cases, ltb→lt, true, false, add_size, sub_size,
}
use sysx.Mm.Vmm.{Target, pgsz, pick, fit_idx, round_up, map_from, map}
use sysx.Mm.Vmm.Rounding.{
  pick_lem, pgsz-page, fit_idx-le, round_map_lem, round_up-page, round_up-bounds,
}
use sysx.Mm.Vmm.Pages.{Page, Tiles, Tiles-le, map_all}

module _ {S : Type 0} (t : Target S) (vmm : ℕ) where
  -- The loop ends at the end of the range, and has mapped the range from `va` on.
  unfoldable Maps : ℕ → ℕ → ℕ → ℕ → ℕ → S → Option (ℕ × S) → Type 0
  Maps max flags pa va va_end s r =
      (gs : List Page) × (r ≡ some (va_end, map_all t vmm flags gs s)) × Tiles max pa va va_end gs

  map_from-page :
      (fuel max flags va_end pa va i : ℕ) (s : S)
      → ltb va va_end ≡ true
      → pick max pa va va_end ≡ some i
      → i ≤ max
      → i ≤ 1
      → (va + pgsz i ≤ va_end) × (pa % pgsz i ≡ 0) × (va % pgsz i ≡ 0)
      → va_end ≤ 0xffc0_0000
      → pa + (va_end - va) < 0x1_0000_0000
      → Maps max flags (pa + pgsz i) (va + pgsz i) va_end (t.pgmap vmm pa va i flags s) (
          map_from t vmm fuel max flags va_end
            (pa + pgsz i)
            (va + pgsz i)
            (t.pgmap vmm pa va i flags s))
      → Maps max flags pa va va_end s (map_from t vmm (suc fuel) max flags va_end pa va s)
  unfolding map_from Maps Tiles map_all
  map_from-page fuel max flags va_end pa va i s more at asked one (fit, pa_on, va_on) small room
        (gs, run, tiles) =
      let pa' : add_size pa (pgsz i) ≡ pa + pgsz i = omega arith in
      let va' : add_size va (pgsz i) ≡ va + pgsz i = omega arith in
      (
        record { pa = pa; va = va; i = i } ∷ gs,
        rw (map_from, more, at, pa', va') run,
        (refl, refl, asked, pa_on, va_on, tiles),
      )

  map_from-done :
      (fuel max flags pa va : ℕ) (s : S)
      → Maps max flags pa va va s (map_from t vmm (suc fuel) max flags va pa va s)
  unfolding map_from Maps Tiles map_all
  map_from-done fuel max flags pa va s =
      let done : ltb va va ≡ false = ground arith in ([], rw (map_from, done) refl, refl)

  map_from-Maps :
      (fuel max flags va_end pa va : ℕ) (s : S)
      → max ≤ 1
      → va ≤ va_end
      → va_end ≤ 0xffc0_0000
      → pa + (va_end - va) < 0x1_0000_0000
      → pa % 4096 ≡ 0
      → va % 4096 ≡ 0
      → va_end % 4096 ≡ 0
      → (va_end - va) / 4096 < fuel
      → Maps max flags pa va va_end s (map_from t vmm fuel max flags va_end pa va s)
  map_from-Maps zero max flags va_end pa va s one le small room p v e enough = absurd (omega arith)
  map_from-Maps (suc fuel) max flags va_end pa va s one le small room p v e enough =
      elim (Bool-cases (ltb va va_end)) [
        | inl more ↦
            let (i, at, asked, fit) =
              pick_lem max pa va va_end one (ltb→lt va va_end more) small p v e in
            let one' : i ≤ 1 = omega arith in
            let page = pgsz-page i one' in
            let big = page.1 in
            map_from-page fuel max flags va_end pa va i s more at asked one' fit small room (
              map_from-Maps fuel max flags va_end (pa + pgsz i) (va + pgsz i)
                (t.pgmap vmm pa va i flags s) one fit.0 small (omega arith)
                (omega (arith, p, page.0)) (omega (arith, v, page.0)) e (omega arith))
        | inr done ↦
            let same : va_end ≡ va = ground arith in rw same (map_from-done fuel max flags pa va s)
      ]

  map_from-span :
      (pa va sz max flags : ℕ) (s : S)
      → max ≤ 1
      → va + sz ≤ 0xffc0_0000
      → pa + sz < 0x1_0000_0000
      → pa % 4096 ≡ 0
      → va % 4096 ≡ 0
      → sz % 4096 ≡ 0
      → (gs : List Page) × (map_from t vmm (sz / 4096 + 1) max flags (va + sz) pa va s
          ≡ some (va + sz, map_all t vmm flags gs s))
        × Tiles max pa va (va + sz) gs
  unfolding Maps
  map_from-span pa va sz max flags s one small room p v z =
      map_from-Maps (sz / 4096 + 1) max flags (va + sz) pa va s one (omega arith) small
        (omega arith) p v (omega arith) (omega arith)

  map-run :
      (pa va sz pgsz_max_idx flags up : ℕ) (s s' : S)
      → up ≡ round_up (sz + pa % 4096)
      → va % 4096 ≡ 0
      → va + up ≤ 0xffc0_0000
      → sz + pa % 4096 ≤ up
      → map_from t vmm
          (up / 4096 + 1)
          (fit_idx (if leb 2 pgsz_max_idx then 1 else pgsz_max_idx) up)
          flags
          (va + up)
          (pa - pa % 4096)
          va
          s
        ≡ some (va + up, s')
      → map t vmm pa va sz pgsz_max_idx flags s ≡ some (va + pa % 4096, s')
  unfolding map
  map-run pa va sz pgsz_max_idx flags up s s' e v small ge run =
      let total : add_size va up ≡ va + up = omega arith in
      let back : sub_size (va + up) up ≡ va = omega arith in
      let off : add_size va (pa % 4096) ≡ va + pa % 4096 = omega arith in
      let span = round_map_lem pa va sz v (omega arith) in
      rw (map, span, ← e, total, run, span, ← e, back, off) refl

  -- `vmm_map` of a range that stays below 4 MB from the end of the address space, to a virtual address
  -- that is aligned, ends. It hands pages to `vmm_pgmap` that lie one behind the other and make up the
  -- whole pages of the range exactly: each is aligned to its size on both sides, is of a size that
  -- there is and that was allowed, and has the flags asked for. No other call changes the address
  -- space. What is returned is the virtual address of the byte at `pa`.
  pub map-maps :
      (pa va sz pgsz_max_idx flags : ℕ) (s : S)
      → va % 4096 ≡ 0
      → va + sz + 0x2000 ≤ 0xffc0_0000
      → pa + sz + 0x2000 < 0x1_0000_0000
      → (gs : List Page) × (map t vmm pa va sz pgsz_max_idx flags s
          ≡ some (va + pa % 4096, map_all t vmm flags gs s))
        × Tiles
            (if leb 2 pgsz_max_idx then 1 else pgsz_max_idx)
            (pa - pa % 4096)
            va
            (va + round_up (sz + pa % 4096))
            gs
  map-maps pa va sz pgsz_max_idx flags s v small room =
      let max = if leb 2 pgsz_max_idx then 1 else pgsz_max_idx in
      let off = pa % 4096 in
      let up = round_up (sz + off) in
      let (ge, lt) = round_up-bounds (sz + off) (omega arith) in
      let one : max ≤ 1 = ground arith in
      let fit = fit_idx-le max up in
      let (gs, run, tiles) =
        map_from-span (pa - off) va up (fit_idx max up) flags s (omega (arith, one, fit))
          (omega arith) (omega arith) (omega arith) v (round_up-page (sz + off) (omega arith)) in
      (
        gs,
        map-run pa va sz pgsz_max_idx flags up s (map_all t vmm flags gs s) refl v (omega arith) ge
            run,
        Tiles-le (fit_idx max up) max (pa - off) va (va + up) gs fit tiles,
      )

  pub map-aligned :
      (pa va sz pgsz_max_idx flags : ℕ) (s : S)
      → pa % 4096 ≡ 0
      → va % 4096 ≡ 0
      → va + sz + 0x2000 ≤ 0xffc0_0000
      → pa + sz + 0x2000 < 0x1_0000_0000
      → (gs : List Page) × (map t vmm pa va sz pgsz_max_idx flags s
          ≡ some (va, map_all t vmm flags gs s))
        × Tiles (if leb 2 pgsz_max_idx then 1 else pgsz_max_idx) pa va (va + round_up sz) gs
  map-aligned pa va sz pgsz_max_idx flags s p v small room =
      let m : pa - 0 ≡ pa = omega arith in
      let a : va + 0 ≡ va = omega arith in
      let z : sz + 0 ≡ sz = omega arith in
      rw (p, m, a, z) at (map-maps pa va sz pgsz_max_idx flags s v small room)
