-- ===== src/Mm/Vmm.antt =====
-- mm/vmm.c, the part of virtual memory that all targets share, with the page sizes of
-- arch/x86cpu/vmm.c: ranges of pages are mapped, unmapped and searched for. `S` is the state behind
-- the calls of the target; an address space is known by its address.
pub mod Rounding
pub mod Pages
pub mod Mapping
pub mod Wrap
pub mod Scan
pub mod FirstFit
pub mod Align
pub mod Unmapping
pub mod RoundTrip
pub mod Traps
pub mod TrapList
pub mod Staging
pub mod Cow
pub mod Fault
pub mod Reference
pub mod Flat
mod Tests
mod TrapTests
use sysx.Base.{
  ℕ, zero, suc, ◌+◌, ◌-◌, ◌*◌, ◌/◌, ◌%◌, Bool, true, false, not, ◌&&◌, ◌||◌, Option, none, some,
  leb, ltb, ◌==◌, ◌!=◌, if◌then◌else◌, add_size, sub_size, mul_size, size_max,
}

-- The calls of the target, each on an address space.
pub record Target (S : Type 0) : Type 0 where
  pub pgmap : ℕ → ℕ → ℕ → ℕ → ℕ → S → S
  pub pgunmap : ℕ → ℕ → ℕ → S → S
  pub get_pgsz : S → ℕ → ℕ → ℕ
  pub get_paddr : S → ℕ → ℕ → ℕ
  pub set_paddr : ℕ → ℕ → ℕ → S → S
  pub get_flags : S → ℕ → ℕ → ℕ
  pub set_flags : ℕ → ℕ → ℕ → S → S

abbrev pub pgsz_num : ℕ
pgsz_num = 2

abbrev pub pgsz : ℕ → ℕ
pgsz zero = 4096
pgsz (suc zero) = 4194304
pgsz (suc (suc n)) = 0

-- The range that `vmm_map` makes of its arguments.
pub record Span : Type 0 where
  pub pa : ℕ
  pub va : ℕ
  pub sz : ℕ
  pub delta : ℕ

abbrev pub page_floor : ℕ → ℕ
page_floor a = a / pgsz 0 * pgsz 0

abbrev pub round_up : ℕ → ℕ
round_up sz = if sz % pgsz 0 != 0 then add_size sz (pgsz 0 - sz % pgsz 0) else sz

pub round_map : ℕ → ℕ → ℕ → Span
round_map pa va sz =
    let pa' = if pa % pgsz 0 != 0 then page_floor pa else pa in
    let delta = if pa % pgsz 0 != 0 then pa - pa' else 0 in
    let va' = if va % pgsz 0 != 0 then page_floor va else va in
    let d = sub_size delta va' in
    let delta' = if va % pgsz 0 != 0 then (if ltb delta d then d else delta) else delta in
    record { pa = pa'; va = va'; sz = round_up (add_size sz delta'); delta = delta' }

-- `while(pgsz_max_idx && vmm_pgsz(pgsz_max_idx) > sz) pgsz_max_idx--;`
pub fit_idx : ℕ → ℕ → ℕ
fit_idx zero sz = zero
fit_idx (suc i) sz = let rest = fit_idx i sz in if ltb sz (pgsz (suc i)) then rest else suc i

-- Whether a page of the size with this index can be mapped next.
abbrev pub fits : ℕ → ℕ → ℕ → ℕ → Bool
fits i pa va va_end =
    not (ltb va_end (add_size va (pgsz i)) || pa % pgsz i != 0 || va % pgsz i != 0)

-- The size that the `for` loop of `vmm_map` settles on.
pub pick : ℕ → ℕ → ℕ → ℕ → Option ℕ
pick zero pa va va_end = if fits zero pa va va_end then some zero else none
pick (suc i) pa va va_end =
    let rest = pick i pa va va_end in if fits (suc i) pa va va_end then some (suc i) else rest

module _ {S : Type 0} (t : Target S) (vmm : ℕ) where
  -- The `while` loop of `vmm_map`: where it ends; `none` means that the fuel ran out.
  pub map_from : ℕ → ℕ → ℕ → ℕ → ℕ → ℕ → S → Option (ℕ × S)
  map_from zero max flags va_end pa va s = none
  map_from (suc fuel) max flags va_end pa va s = elim (ltb va va_end) [
    | true ↦ elim (pick max pa va va_end) [
      | none ↦ map_from fuel max flags va_end pa va s
      | some i ↦
          map_from fuel max flags va_end (add_size pa (pgsz i)) (add_size va (pgsz i))
            (t.pgmap vmm pa va i flags s)
    ]
    | false ↦ some (va, s)
  ]

  -- A round maps a page of the smallest size at least.
  pub map : ℕ → ℕ → ℕ → ℕ → ℕ → S → Option (ℕ × S)
  unfolding map_from
  map pa va sz pgsz_max_idx flags s =
      let max = if leb pgsz_num pgsz_max_idx then pgsz_num - 1 else pgsz_max_idx in
      let span = round_map pa va sz in
      let va_end = add_size span.va span.sz in
      elim (map_from (span.sz / pgsz 0 + 1) (fit_idx max span.sz) flags va_end span.pa span.va s) [
        | none ↦ none
        | some (last, s') ↦ some (add_size (sub_size last span.sz) span.delta, s')
      ]

  -- One round of the `for` loop of `vmm_unmap`.
  pub unmap_page : ℕ → ℕ → ℕ → S → ℕ × S
  unmap_page i va_end va s =
      if ltb va_end (add_size va (pgsz i)) || va % pgsz i != 0
      then (va, s)
      else (add_size va (pgsz i), t.pgunmap vmm va i s)

  -- The `for` loop of `vmm_unmap`, which goes on after a page was unmapped.
  pub sweep : ℕ → ℕ → ℕ → S → ℕ × S
  unfolding unmap_page
  sweep zero va_end va s = unmap_page zero va_end va s
  sweep (suc i) va_end va s =
      let (va', s') = unmap_page (suc i) va_end va s in sweep i va_end va' s'

  pub unmap_from : ℕ → ℕ → ℕ → S → Option S
  unfolding sweep
  unmap_from zero va_end va s = none
  unmap_from (suc fuel) va_end va s = elim (ltb va va_end) [
    | true ↦ let (va', s') = sweep (pgsz_num - 1) va_end va s in unmap_from fuel va_end va' s'
    | false ↦ some s
  ]

  pub unmap : ℕ → ℕ → S → Option S
  unfolding unmap_from
  unmap va sz s =
      let va' = if va % pgsz 0 != 0 then page_floor va else va in
      let sz' = round_up (if va % pgsz 0 != 0 then add_size sz (va - va') else sz) in
      unmap_from (sz' / pgsz 0 + 1) (add_size va' sz') va' s

  -- Where the `while` loop of `vmm_first_free` looks next after a page in use.
  pub skip : Bool → ℕ → ℕ → ℕ → ℕ
  skip true align result blk_sz =
      let r = sub_size result (blk_sz + 1) in
      if align != 0 && r % align != 0 then sub_size r (r % align) else r
  skip false align result blk_sz =
      let r = add_size result (blk_sz + 1) in
      if align != 0 && r % align != 0 then add_size r (align - r % align) else r

  pub scan : ℕ → Bool → ℕ → ℕ → ℕ → ℕ → ℕ → ℕ → S → Option ℕ
  scan zero rev align lo hi sz result blk_sz s = none
  scan (suc fuel) rev align lo hi sz result blk_sz s =
      elim (leb lo result && leb (add_size result sz) hi) [
        | true ↦ elim (t.get_pgsz s vmm (mul_size (add_size result blk_sz) (pgsz 0)) == size_max) [
          | false ↦ scan fuel rev align lo hi sz (skip rev align result blk_sz) 0 s
          | true ↦ elim (blk_sz + 1 == sz) [
            | true ↦ some (mul_size result (pgsz 0))
            | false ↦ scan fuel rev align lo hi sz result (blk_sz + 1) s
          ]
        ]
        | false ↦ some 0
      ]

  -- `none` also stands for the division by zero when there are no pages to look for.
  pub first_free : ℕ → ℕ → ℕ → ℕ → ℕ → Bool → S → Option ℕ
  unfolding scan
  first_free fuel va_start va_end sz align rev s =
      let lo = if va_start == 0 then 1 else add_size va_start (pgsz 0 - 1) / pgsz 0 in
      let hi = va_end / pgsz 0 in
      let pages = add_size sz (pgsz 0 - 1) / pgsz 0 in
      elim pages [
        | zero ↦ none
        | suc p ↦
            scan fuel rev (align / suc p) lo hi (suc p) (if rev then sub_size hi (suc p) else lo) 0
              s
      ]

  -- The address that `vmm_alloc_map` returns after `vmm_map`.
  abbrev pub returned : ℕ → Option (ℕ × S) → Option (ℕ × S)
  returned at none = none
  returned at (some (mapped, s)) = some (at, s)

  pub alloc_map : ℕ → ℕ → ℕ → ℕ → ℕ → ℕ → ℕ → Bool → ℕ → S → Option (ℕ × S)
  unfolding first_free map
  alloc_map fuel pa sz va_start va_end va_align pgsz_max_idx rev flags s =
      let off = pa % pgsz 0 in
      elim (first_free fuel va_start va_end (add_size sz off) va_align rev s) [
        | none ↦ none
        | some vaddr ↦
            if vaddr == 0
            then some (0, s)
            else returned (add_size vaddr off)
                (map (pa - off) vaddr (add_size sz off) pgsz_max_idx flags s)
      ]
