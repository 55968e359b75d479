-- ===== src/Exec/Elf/Unload.antt =====
-- `elf_unload_prg`: the frames and the pages of a program are given back. The state is that of the
-- address spaces and of the page frames.
use sysx.Base.{
  ℕ, zero, suc, ◌+◌, ◌/◌, ◌<◌, ◌≡◌, refl, true, false, Option, none, some, List, [], ◌∷◌, ltb, ◌==◌,
  if◌then◌else◌, add_size, size_max, arith,
}
use sysx.Mm.Vmm.{Target, pgsz}
use sysx.Mm.Pmm.{Pmm, free}
use sysx.Exec.Elf.{PrgLoad}

-- The size of a page by its index, 0 for `(size_t)-1`.
abbrev pub page_bytes : ℕ → ℕ
page_bytes idx = if idx == 0 then pgsz 0 else if idx == 1 then pgsz 1 else 0

-- `for(size_t j = 0; j < n; j++) pmm_free(frame + j);`
pub free_frames : ℕ → ℕ → Pmm → Pmm
free_frames frame zero p = p
free_frames frame (suc n) p = free_frames (frame + 1) n (free p frame)

module _ {S : Type 0} (t : Target S) (alloc_vmm : ℕ) where
  -- The pages from `off` on; `none` means that the fuel ran out.
  pub unload_pages : ℕ → ℕ → ℕ → ℕ → S → Pmm → Option (S × Pmm)
  unfolding free_frames
  unload_pages zero size off vaddr s p = none
  unload_pages (suc fuel) size off vaddr s p = elim (ltb off size) [
    | false ↦ some (s, p)
    | true ↦
        let paddr = t.get_paddr s alloc_vmm vaddr in
        let idx = t.get_pgsz s alloc_vmm vaddr in
        let bytes = page_bytes idx in
        unload_pages fuel size (add_size off bytes) (add_size vaddr bytes)
          (t.pgunmap alloc_vmm vaddr idx s)
          (if paddr == 0 then p else free_frames (paddr / pgsz 0) (bytes / pgsz 0) p)
  ]

  pub unload_prg : ℕ → List PrgLoad → S → Pmm → Option (S × Pmm)
  unfolding unload_pages
  unload_prg fuel [] s p = some (s, p)
  unload_prg fuel (l ∷ ls) s p = elim (unload_pages fuel l.size 0 l.vaddr s p) [
    | none ↦ none
    | some (s', p') ↦ unload_prg fuel ls s' p'
  ]

  -- If a page of a program is not mapped, and the target leaves the address space as it is when the
  -- page is unmapped, the loop of `elf_unload_prg` never ends.
  pub unload_pages-endless :
      (fuel size off vaddr : ℕ) (s : S) (p : Pmm)
      → off < size
      → size < 0x1_0000_0000
      → vaddr < 0x1_0000_0000
      → t.get_pgsz s alloc_vmm vaddr ≡ size_max
      → t.get_paddr s alloc_vmm vaddr ≡ 0
      → t.pgunmap alloc_vmm vaddr size_max s ≡ s
      → unload_pages fuel size off vaddr s p ≡ none
  unfolding unload_pages
  unload_pages-endless zero size off vaddr s p more small low idx paddr same = refl
  unload_pages-endless (suc fuel) size off vaddr s p more small low idx paddr same =
      let go : ltb off size ≡ true = ground arith in
      let stay : add_size off 0 ≡ off = omega arith in
      let stay' : add_size vaddr 0 ≡ vaddr = omega arith in
      rw (unload_pages, go, paddr, idx, same, stay, stay')
        (unload_pages-endless fuel size off vaddr s p more small low idx paddr same)
