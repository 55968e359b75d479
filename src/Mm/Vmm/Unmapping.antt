-- ===== src/Mm/Vmm/Unmapping.antt =====
-- `vmm_unmap`: which pages a call unmaps.
use sysx.Base.{
  ℕ, zero, suc, ◌+◌, ◌-◌, ◌/◌, ◌%◌, ◌<◌, ◌≤◌, ◌≡◌, refl, ◌∙◌, sym, ap, List, [], ◌∷◌, ◌++◌, inl,
  inr, ◌||◌, some, arith, ltb, ◌!=◌, false, Bool-cases, ltb→lt, add_size, dec_lt,
}
use sysx.Mm.Vmm.{Target, pgsz, unmap_page, sweep, unmap_from, unmap, round_up}
use sysx.Mm.Vmm.Rounding.{round_up-page, round_up-bounds, pgsz-page, pgsz-le}
use sysx.Mm.Vmm.Pages.{Page, Covers, unmap_all}

Covers-append :
    (va mid va_end : ℕ) (gs hs : List Page)
    → Covers va mid gs
    → Covers mid va_end hs
    → Covers va va_end (gs ++ hs)
unfolding Covers
Covers-append va mid va_end [] hs c d = rw c d
Covers-append va mid va_end (g ∷ gs) hs (at, one, on, c) d =
    (at, one, on, Covers-append (va + pgsz g.i) mid va_end gs hs c d)

module _ {S : Type 0} (t : Target S) (vmm : ℕ) where
  unmap_all-append :
      (gs hs : List Page) (s : S)
      → unmap_all t vmm (gs ++ hs) s ≡ unmap_all t vmm hs (unmap_all t vmm gs s)
  unfolding unmap_all
  unmap_all-append [] hs s = refl
  unmap_all-append (g ∷ gs) hs s = unmap_all-append gs hs (t.pgunmap vmm g.va g.i s)

  -- A step has come as far as `r.0`, has unmapped what lies before, and is still on a page.
  unfoldable Clears : ℕ → ℕ → S → ℕ × S → Type 0
  Clears va va_end s r =
      (va ≤ r.0)
      × (r.0 ≤ va_end)
      × (r.0 % 4096 ≡ 0)
      × (gs : List Page) × (r.1 ≡ unmap_all t vmm gs s)
      × Covers va r.0 gs

  unmap_page-Clears :
      (i va_end va : ℕ) (s : S)
      → i ≤ 1
      → va ≤ va_end
      → va_end < 0xffc0_0000
      → va % 4096 ≡ 0
      → Clears va va_end s (unmap_page t vmm i va_end va s)
  unfolding Clears unmap_page Covers unmap_all
  unmap_page-Clears i va_end va s one le small v =
      elim (Bool-cases (ltb va_end (add_size va (pgsz i)) || va % pgsz i != 0)) [
        | inl stays ↦ rw stays (omega arith, le, v, [], refl, refl)
        | inr fits ↦
            let page = pgsz-page i one in
            let most = pgsz-le i one in
            let e : add_size va (pgsz i) ≡ va + pgsz i = omega (arith, most) in
            let on : va % pgsz i ≡ 0 = ground arith in
            let below : va + pgsz i ≤ va_end = ground (arith, e) in
            rw (fits, e)
              (
                omega arith,
                below,
                omega (arith, page.0),
                record { pa = 0; va = va; i = i } ∷ [],
                refl,
                (refl, one, on, refl),
              )
      ]

  Clears-trans :
      (va va_end : ℕ) (s : S) (r q : ℕ × S)
      → Clears va va_end s r
      → Clears r.0 va_end r.1 q
      → Clears va va_end s q
  unfolding Clears
  Clears-trans va va_end s r q (lo, hi, page, gs, at, on) (lo', hi', page', hs, at', on') = (
    omega arith,
    hi',
    page',
    gs ++ hs,
    at' ∙ ap (unmap_all t vmm hs) at ∙ sym (unmap_all-append gs hs s),
    Covers-append va r.0 q.0 gs hs on on',
  )

  -- A round of the inner loop unmaps a page at least.
  unmap_page-moves :
      (va_end va : ℕ) (s : S)
      → va < va_end
      → va_end < 0xffc0_0000
      → va % 4096 ≡ 0
      → va_end % 4096 ≡ 0
      → (unmap_page t vmm 0 va_end va s).0 ≡ va + 4096
  unfolding unmap_page
  unmap_page-moves va_end va s more small v e =
      let fits : ltb va_end (add_size va 4096) || va % 4096 != 0 ≡ false = ground arith in
      rw fits (omega arith)

  sweep-Clears :
      (va_end va : ℕ) (s : S)
      → va < va_end
      → va_end < 0xffc0_0000
      → va % 4096 ≡ 0
      → va_end % 4096 ≡ 0
      → Clears va va_end s (sweep t vmm 1 va_end va s) × (va + 4096 ≤ (sweep t vmm 1 va_end va s).0)
  unfolding sweep Clears
  sweep-Clears va_end va s more small v e =
      let r = unmap_page t vmm 1 va_end va s in
      let q = unmap_page t vmm 0 va_end r.0 r.1 in
      let one = unmap_page-Clears 1 va_end va s (omega arith) (omega arith) small v in
      let zero' = unmap_page-Clears 0 va_end r.0 r.1 (omega arith) one.1 small one.2 in
      (
        Clears-trans va va_end s r q one zero',
        elim (dec_lt r.0 va_end) [
          | yes on ↦ omega (arith, one.0, unmap_page-moves va_end r.0 r.1 on small one.2 e)
          | no end ↦ omega (arith, one.0, one.1, zero'.0)
        ],
      )

  unmap_from-done :
      (k va va_end : ℕ) (s : S)
      → ltb va va_end ≡ false
      → va ≡ va_end
      → (gs : List Page) × (unmap_from t vmm (suc k) va_end va s ≡ some (unmap_all t vmm gs s))
        × Covers va va_end gs
  unfolding unmap_from Covers unmap_all
  unmap_from-done k va va_end s done same = ([], rw (unmap_from, done) refl, same)

  unmap_from-clears :
      (fuel va_end va : ℕ) (s : S)
      → va ≤ va_end
      → va_end < 0xffc0_0000
      → va % 4096 ≡ 0
      → va_end % 4096 ≡ 0
      → (va_end - va) / 4096 < fuel
      → (gs : List Page) × (unmap_from t vmm fuel va_end va s ≡ some (unmap_all t vmm gs s))
        × Covers va va_end gs
  unfolding unmap_from Clears
  unmap_from-clears zero va_end va s le small v e enough = absurd (omega arith)
  unmap_from-clears (suc k) va_end va s le small v e enough = elim (Bool-cases (ltb va va_end)) [
    | inl more ↦
        let r = sweep t vmm 1 va_end va s in
        let ((lo, hi, page, gs, at, on), moves) =
          sweep-Clears va_end va s (ltb→lt va va_end more) small v e in
        let (hs, run, on') = unmap_from-clears k va_end r.0 r.1 hi small page e (omega arith) in
        (
          gs ++ hs,
          rw (unmap_from, more) run
              ∙ ap (λ x. some (unmap_all t vmm hs x)) at
              ∙ ap some (sym (unmap_all-append gs hs s)),
          Covers-append va r.0 va_end gs hs on on',
        )
    | inr done ↦ let same : va ≡ va_end = ground arith in unmap_from-done k va va_end s done same
  ]

  unmap-run :
      (va sz : ℕ) (s s' : S)
      → va % 4096 ≡ 0
      → add_size va (round_up sz) ≡ va + round_up sz
      → unmap_from t vmm (round_up sz / 4096 + 1) (va + round_up sz) va s ≡ some s'
      → unmap t vmm va sz s ≡ some s'
  unfolding unmap
  unmap-run va sz s s' v total run =
      let aligned : va % 4096 != 0 ≡ false = ground arith in rw (unmap, aligned) (rw total run)

  -- `vmm_unmap` of an aligned range that ends below the last 4 MB of the address space ends. It hands
  -- to `vmm_pgunmap` pages that lie one behind the other, aligned to their sizes, and make up the whole
  -- pages of the range exactly, and does nothing else.
  pub unmap-Covers :
      (va sz : ℕ) (s : S)
      → va % 4096 ≡ 0
      → va + sz + 0x1000 < 0xffc0_0000
      → (gs : List Page) × (unmap t vmm va sz s ≡ some (unmap_all t vmm gs s))
        × Covers va (va + round_up sz) gs
  unmap-Covers va sz s v small =
      let (ge, lt) = round_up-bounds sz (omega arith) in
      let page = round_up-page sz (omega arith) in
      let total : add_size va (round_up sz) ≡ va + round_up sz = omega arith in
      let (gs, run, on) =
        unmap_from-clears (round_up sz / 4096 + 1) (va + round_up sz) va s (omega arith)
          (omega arith) v (omega arith) (omega arith) in
      (gs, unmap-run va sz s (unmap_all t vmm gs s) v total run, on)
