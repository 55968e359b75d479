-- ===== src/Mm/Vmm/Wrap.antt =====
-- `vmm_map`: what becomes of a virtual address that is not aligned.
use sysx.Base.{
  ℕ, suc, ◌+◌, ◌-◌, ◌*◌, ◌/◌, ◌%◌, ◌<◌, ◌≤◌, ◌≡◌, ◌≢◌, refl, some, arith, leb, ltb, ◌!=◌,
  if◌then◌else◌, true, false, add_size, sub_size,
}
use sysx.Mm.Vmm.{Target, fit_idx, round_map, round_up, map_from, map}
use sysx.Mm.Vmm.Rounding.{round_up-page, round_up-bounds}

-- The size of the range is short of the address below which it begins.
round_map-unaligned :
    (pa va sz : ℕ)
    → pa % 4096 ≡ 0
    → va % 4096 ≢ 0
    → va < 0x1_0000_0000
    → sz + 4096 ≤ va - va % 4096
    → round_map pa va sz ≡ record {
      pa = pa;
      va = va - va % 4096;
      sz = 0x1_0000_0000 + round_up sz - (va - va % 4096);
      delta = 0x1_0000_0000 - (va - va % 4096);
    }
unfolding round_map
round_map-unaligned pa va sz p v small below =
    let p' : pa % 4096 != 0 ≡ false = ground arith in
    let v' : va % 4096 != 0 ≡ true = ground arith in
    let f : va / 4096 * 4096 ≡ va - va % 4096 = omega arith in
    let d : sub_size 0 (va - va % 4096) ≡ 0x1_0000_0000 - (va - va % 4096) = omega arith in
    let l : ltb 0 (0x1_0000_0000 - (va - va % 4096)) ≡ true = ground arith in
    let r : round_up (add_size sz (0x1_0000_0000 - (va - va % 4096)))
        ≡ 0x1_0000_0000 + round_up sz - (va - va % 4096) =
      ground arith in
    rw (p', v', f, d, l, r) refl

module _ {S : Type 0} (t : Target S) (vmm : ℕ) where
  map_from_stop :
      (n max flags va_end pa va : ℕ) (s : S)
      → ltb va va_end ≡ false
      → map_from t vmm (n + 1) max flags va_end pa va s ≡ some (va, s)
  unfolding map_from
  map_from_stop n max flags va_end pa va s stop =
      let e : n + 1 ≡ suc n = omega arith in rw (e, map_from, stop) refl

  -- For an aligned physical address and a virtual address that is not aligned and lies in a page
  -- above the size of the range, `vmm_map` maps nothing, and returns the page's address less the
  -- rounded size.
  pub map-unaligned :
      (pa va sz pgsz_max_idx flags : ℕ) (s : S)
      → pa % 4096 ≡ 0
      → va % 4096 ≢ 0
      → va < 0x1_0000_0000
      → sz + 4096 ≤ va - va % 4096
      → map t vmm pa va sz pgsz_max_idx flags s ≡ some (va - va % 4096 - round_up sz, s)
  unfolding map
  map-unaligned pa va sz pgsz_max_idx flags s p v small below =
      let (ge, lt) = round_up-bounds sz (omega arith) in
      let page = round_up-page sz (omega arith) in
      let at = va - va % 4096 in
      let size = 0x1_0000_0000 + round_up sz - at in
      let span = round_map-unaligned pa va sz p v small below in
      let last : add_size at size ≡ round_up sz = omega arith in
      let stop : ltb at (round_up sz) ≡ false = ground arith in
      let back : add_size (sub_size at size) (0x1_0000_0000 - at) ≡ at - round_up sz =
        omega arith in
      let run =
        map_from_stop (size / 4096) (fit_idx (if leb 2 pgsz_max_idx then 1 else pgsz_max_idx) size)
          flags (round_up sz) pa at s stop in
      rw (map, span, last, run, span, back) refl
