-- ===== src/Mm/Vmm/Fault.antt =====
-- mm/vmm.c: a write to a copy-on-write page, and the end of an address space.
use sysx.Base.{
  ℕ, zero, suc, ◌+◌, ◌-◌, ◌/◌, ◌%◌, Bool, true, false, not, ◌&&◌, Option, none, some, List, [], ◌∷◌,
  ◌++◌, bit_and, bit_or, ◌==◌, ◌!=◌, if◌then◌else◌, add_size, mul_size, size_max, length, get_or,
}
use sysx.Base.Memory.{Memory, update}
use sysx.Base.Bits.{complement}
use sysx.Mm.Pmm.{Pmm, alloc_free}
use sysx.Mm.Vmm.{Target, alloc_map}
use sysx.Mm.Vmm.Traps.{
  is_cow_type, is_cow_of, Trap, no_entry, Call, waits, returns, delete_trap, find_cow,
}
use sysx.Mm.Vmm.Cow.{page_bytes, Space, cow_setup}

pub record Kernel (S : Type 0) : Type 0 where
  pub space : Space S
  pub pmm : Pmm
  pub memory : Memory

-- The first entry but the one at `src` that is a copy-on-write entry for the page, as
-- `vmm_cow_duplicate` looks for it, from index `i` on.
unfoldable pub find_reference : List Trap → ℕ → ℕ → ℕ → ℕ → Option ℕ
find_reference [] i src vmm vaddr = none
find_reference (x ∷ xs) i src vmm vaddr =
    let rest = find_reference xs (i + 1) src vmm vaddr in
    if i != src && is_cow_of vmm vaddr x then some i else rest

module _ {S : Type 0} (t : Target S) (vmm_current kernel_end : ℕ) where
  -- `memcpy` of `n` bytes between two addresses of the current address space.
  pub copy_bytes : S → ℕ → ℕ → ℕ → Memory → Memory
  copy_bytes s dst src zero m = m
  copy_bytes s dst src (suc n) m =
      copy_bytes s (dst + 1) (src + 1) n
        (update m (t.get_paddr s vmm_current dst) (m (t.get_paddr s vmm_current src)))

  -- The loop over the frames of the page, through the window of two pages at `window`.
  pub copy_frames : ℕ → ℕ → ℕ → ℕ → ℕ → ℕ → S → Memory → S × Memory
  unfolding copy_bytes
  copy_frames window from frame bytes i zero s m = (s, m)
  copy_frames window from frame bytes i (suc n) s m =
      let s1 = t.set_paddr vmm_current window (add_size from (mul_size i 4096)) s in
      let s2 = t.set_paddr vmm_current (add_size window 4096) (mul_size (frame + i) 4096) s1 in
      copy_frames window from frame bytes (i + 1) n s2
        (copy_bytes s2 (add_size window bytes) window 4096 m)

  -- What `vmm_cow_duplicate` does with the frames it got, for the pair of entries `src` and `dst`.
  pub resolve : ℕ → ℕ → ℕ → ℕ → ℕ → ℕ → ℕ → Kernel S → Kernel S
  unfolding copy_frames find_reference
  resolve window frame bytes vmm vaddr src dst k =
      let xs = k.space.traps.traps in
      let e = get_or xs src no_entry in
      let from = t.get_paddr k.space.vm e.vmm e.vaddr in
      let (s, m) = copy_frames window from frame bytes 0 (bytes / 4096) k.space.vm k.memory in
      let s1 = t.set_paddr vmm vaddr (mul_size frame 4096) s in
      let s2 = t.set_flags vmm vaddr (bit_or (t.get_flags s1 vmm vaddr) 2) s1 in
      let s3 : S = elim (find_reference xs 0 src vmm vaddr) [
        | none ↦ s2
        | some j ↦
            t.set_flags e.vmm e.vaddr
              (bit_or (bit_and (t.get_flags s2 e.vmm e.vaddr) (complement 32 64)) 2) s2
      ] in
      record k {
        memory = m;
        space = record k.space {
          vm = s3;
          traps = record k.space.traps {
            traps = delete_trap (some dst) (delete_trap (some src) xs);
          };
        };
      }

  -- `vmm_cow_duplicate` for a page whose size has been found, with the mutex; `none` means that the
  -- search for space ran out of fuel.
  pub duplicate_page : ℕ → ℕ → ℕ → ℕ → Kernel S → Option (Bool × Kernel S)
  unfolding resolve
  duplicate_page fuel vmm vaddr bytes k =
      let xs = k.space.traps.traps in
      elim (find_cow xs vmm vaddr) [
        | none ↦ some (false, k)
        | some dst ↦
            elim (alloc_map t vmm_current fuel 0 8192 kernel_end size_max 0 0 false 3 k.space.vm) [
              | none ↦ none
              | some (window, s) ↦
                  let k' : Kernel S = record k { space = record k.space { vm = s } } in
                  elim (window == 0) [
                    | true ↦ some (false, k')
                    | false ↦ elim (alloc_free k.pmm (bytes / 4096)) [
                      | none ↦ none
                      | some (frame, p) ↦
                          let k'' : Kernel S = record k' { pmm = p } in
                          if frame == size_max
                          then some (false, k'')
                          else some (
                            true,
                            resolve window frame bytes vmm vaddr (get_or xs dst no_entry).info dst
                                k'',
                          )
                    ]
                  ]
            ]
      ]

  pub cow_duplicate : ℕ → ℕ → ℕ → ℕ → Kernel S → Option (Call (Bool × Kernel S))
  unfolding duplicate_page
  cow_duplicate fuel vmm vaddr idx k =
      let idx' = if idx == size_max then t.get_pgsz k.space.vm vmm vaddr else idx in
      let bytes = page_bytes idx' in
      if idx' == size_max
      then some (returns (false, k))
      else if k.space.traps.locked
      then some waits
      else elim (duplicate_page fuel vmm (vaddr - vaddr % bytes) bytes k) [
        | none ↦ none
        | some r ↦ some (returns r)
      ]

  -- `vmm_handle_fault`.
  pub handle_fault : ℕ → ℕ → ℕ → Kernel S → Option (Call (Bool × Kernel S))
  unfolding cow_duplicate
  handle_fault fuel vaddr flags k =
      if bit_and flags 2 != 0
      then cow_duplicate fuel vmm_current vaddr size_max k
      else some (returns (false, k))

-- An entry of the table in `vmm_trap_remove`: a page, and its new source.
abbrev pub Resolved : Type 0
Resolved = ℕ × ℕ × ℕ

unfoldable pub find_resolved : List Resolved → ℕ → Option Resolved
find_resolved [] vaddr = none
find_resolved (r ∷ rs) vaddr =
    let rest = find_resolved rs vaddr in if r.0 == vaddr then some r else rest

module _ {S : Type 0} (t : Target S) where
  -- Both entries of a pair are deleted.
  abbrev pub drop_pair : ℕ → Space S → Space S
  drop_pair i x =
      let xs = x.traps.traps in
      record x {
        traps = record x.traps {
          traps = delete_trap (some i) (delete_trap (some (get_or xs i no_entry).info) xs);
        };
      }

  -- The loop of `vmm_trap_remove` over `left` entries from index `i` on, which holds the mutex.
  unfoldable pub remove_from :
      ℕ → ℕ → ℕ → ℕ → List Resolved → Space S → Option (Call (Bool × Space S))
  unfolding find_resolved
  remove_from fuel vmm i zero done x = some (returns (true, x))
  remove_from fuel vmm i (suc left) done x =
      let xs = x.traps.traps in
      let e = get_or xs i no_entry in
      if not (is_cow_type e.kind)
      then remove_from fuel vmm (i + 1) left done x
      else if (get_or xs e.info no_entry).vmm == vmm
      then elim (find_resolved done e.vaddr) [
        | some r ↦
            let idx = t.get_pgsz x.vm e.vmm e.vaddr in
            if idx == size_max
            then remove_from fuel vmm (i + 1) left done (drop_pair i x)
            else elim (cow_setup t fuel r.1 r.2 e.vmm e.vaddr (page_bytes idx) (drop_pair i x)) [
              | none ↦ none
              | some waits ↦ some waits
              | some (returns (bytes, y)) ↦ elim (bytes == 0) [
                | true ↦ some (returns (false, y))
                | false ↦ remove_from fuel vmm (i + 1) left done y
              ]
            ]
        | none ↦
            let full = length done % 4 == 0 in
            let allocated = x.heap x.calls in
            let x' : Space S = record x { calls = if full then x.calls + 1 else x.calls } in
            if full && not allocated
            then some (returns (false, x'))
            else remove_from fuel vmm (i + 1) left (done ++ ((e.vaddr, e.vmm, e.vaddr) ∷ [])) (
                drop_pair i (record x' {
                  vm = t.set_flags e.vmm e.vaddr (bit_or (t.get_flags x.vm e.vmm e.vaddr) 2) x.vm;
                }))
      ]
      else if e.vmm == vmm
      then remove_from fuel vmm (i + 1) left done
          (record x { traps = record x.traps { traps = delete_trap (some i) xs } })
      else remove_from fuel vmm (i + 1) left done x

  pub trap_remove : ℕ → ℕ → Space S → Option (Call (Bool × Space S))
  unfolding remove_from
  trap_remove fuel vmm x =
      let held : Space S = record x { traps = record x.traps { locked = true } } in
      if x.traps.locked
      then some waits
      else elim (remove_from fuel vmm 0 (length x.traps.traps) [] held) [
        | none ↦ none
        | some waits ↦ some waits
        | some (returns (ok, y)) ↦
            some (returns (ok, record y { traps = record y.traps { locked = false } }))
      ]
