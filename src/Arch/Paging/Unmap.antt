-- ===== src/Arch/Paging/Unmap.antt =====
-- `vmm_pgunmap` and `vmm_pgmap` by the size of the page. `resolve` is `vmm_unmap_resolve_cow`, for the
-- address and the size of the page.
use sysx.Base.{
  ℕ, zero, suc, ◌+◌, ◌*◌, false, ◌&&◌, Option, none, some, leb, ltb, ◌==◌, if◌then◌else◌,
}
use sysx.Base.Memory.{update}
use sysx.Mm.Pmm.{free}
use sysx.Arch.Paging.{absent, table_at, huge, Paging, pde_of, pte_of, pgmap_small, pgmap_huge}
use sysx.Arch.Paging.Query.{write_entry, flags_of}

-- The bounds of the region of the recursive mapping, which is not mapped into.
pub record Region : Type 0 where
  pub rmap_start : ℕ
  pub rmap_end : ℕ

pub pgmap : Region → ℕ → ℕ → ℕ → ℕ → Paging → Option Paging
pgmap r pa va idx flags s =
    if leb r.rmap_start va && ltb va r.rmap_end
    then some s
    else if idx == 0
    then pgmap_small pa va flags s
    else if idx == 1
    then some (pgmap_huge pa va flags s)
    else some s

-- The other pages of a huge page are mapped one by one: `left` of them from `va_map` on.
pub map_others : ℕ → ℕ → ℕ → ℕ → ℕ → Paging → Option Paging
map_others va pa va_map flags zero s = some s
map_others va pa va_map flags (suc left) s =
    elim (if va_map == va then some s else pgmap_small pa va_map flags s) [
      | none ↦ none
      | some s' ↦ map_others va (pa + 4096) (va_map + 4096) flags left s'
    ]

module _ (resolve : ℕ → ℕ → Paging → Paging) where
  pub pgunmap_small : ℕ → Paging → Option Paging
  unfolding map_others
  pgunmap_small va s =
      let i = pde_of va in
      let j = pte_of va in
      elim (s.dir i) [
        | absent ↦ some s
        | table_at p w u frame ↦
            let s' = elim (s.table i j) as (λ x. Paging) [
              | none ↦ s
              | some (bits, pa) ↦ if bits.trapped then resolve va 0 s else s
            ] in
            some (write_entry i j none s')
        | huge bits n ↦
            let s' = if bits.trapped then resolve (i * 0x40_0000) 1 s else s in
            let flags = flags_of (record bits { trapped = false }) in
            map_others va (n * 0x40_0000) (i * 0x40_0000) flags 1024
              (record s' { dir = update s'.dir i absent })
      ]

  -- The pages of a table whose entries are marked are resolved, from entry `j` on.
  pub resolve_table : ℕ → ℕ → ℕ → Paging → Paging
  resolve_table va j zero s = s
  resolve_table va j (suc left) s =
      let s' = elim (s.table (pde_of va) j) as (λ x. Paging) [
        | none ↦ s
        | some (bits, pa) ↦ if bits.trapped then resolve (va + j * 4096) 0 s else s
      ] in
      resolve_table va (j + 1) left s'

  pub pgunmap_huge : ℕ → Paging → Paging
  unfolding resolve_table
  pgunmap_huge va s =
      let i = pde_of va in
      elim (s.dir i) [
        | absent ↦ s
        | table_at p w u frame ↦
            let s' = resolve_table va 0 1024 s in
            record s' { dir = update s'.dir i absent; pmm = free s'.pmm frame }
        | huge bits n ↦
            let s' = if bits.trapped then resolve va 1 s else s in
            record s' { dir = update s'.dir i absent }
      ]

  pub pgunmap : Region → ℕ → ℕ → Paging → Option Paging
  unfolding pgunmap_small pgunmap_huge
  pgunmap r va idx s =
      if leb r.rmap_start va && ltb va r.rmap_end
      then some s
      else if idx == 0
      then pgunmap_small va s
      else if idx == 1
      then some (pgunmap_huge va s)
      else some s
