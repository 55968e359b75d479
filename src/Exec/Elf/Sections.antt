-- ===== src/Exec/Elf/Sections.antt =====
-- `elf_load_rel`: the sections of a relocatable file are given memory. `memory` is that of the current
-- address space.
use sysx.Base.{
  ℕ, zero, suc, ◌+◌, ◌*◌, ◌/◌, ◌≡◌, ◌∙◌, Bool, true, false, ◌&&◌, ◌||◌, none, some, List, [], ◌∷◌,
  ◌++◌, bit_and, ◌==◌, ◌!=◌, if◌then◌else◌, add_size, mul_size, size_max, arith,
}
use sysx.Mm.Vmm.{Target, first_free, unmap}
use sysx.Mm.Pmm.{Pmm, free, alloc_free}
use sysx.Mm.Pmm.Bitmap.{used, free_lem}
use sysx.Exec.Elf.{File, Shdr, PrgLoad, kmalloc, Stage, loaded, failed, faulted, endless, err_alloc}
use sysx.Exec.Elf.Segment.{Env, read_to, clear_to}

abbrev pub needs_memory : Shdr → Bool
needs_memory s = bit_and s.sh_flags 2 != 0 && s.sh_size != 0 && (s.sh_type == 1 || s.sh_type == 8)

-- `for(size_t k = 0; k < j; k++) pmm_free(...)` with an argument that does not depend on `k`.
pub free_same : ℕ → ℕ → Pmm → Pmm
free_same frame zero p = p
free_same frame (suc n) p = free_same frame n (free p frame)

module _ {S : Type 0} (t : Target S) (vmm_current alloc_vmm : ℕ) where
  -- `left` frames from the `j`-th on for the section at `vaddr`.
  pub give_frames : ℕ → ℕ → ℕ → S → Pmm → Stage (S × Pmm)
  unfolding free_same
  give_frames vaddr j zero s p = loaded (s, p)
  give_frames vaddr j (suc left) s p = elim (alloc_free p 1) [
    | none ↦ endless
    | some (frame, p') ↦ elim (frame == size_max) [
      | true ↦ elim (unmap t vmm_current vaddr (j * 4096) s) [
        | none ↦ endless
        | some s' ↦ failed err_alloc (s', free_same (t.get_paddr s alloc_vmm vaddr / 4096) j p')
      ]
      | false ↦
          give_frames vaddr (j + 1) left
            (t.pgmap vmm_current (mul_size frame 4096) (add_size vaddr (mul_size j 4096)) 0 27 s) p'
    ]
  ]

  -- `n` frames behind the pages from `vaddr` on are given back.
  pub free_pages : ℕ → ℕ → S → Pmm → Pmm
  free_pages vaddr zero s p = p
  free_pages vaddr (suc n) s p =
      free_pages (add_size vaddr 4096) n s (free p (t.get_paddr s alloc_vmm vaddr / 4096))

  -- A section that needs memory, behind the search for its place.
  pub load_at : (ℕ → ℕ) → Shdr → ℕ → ℕ → List PrgLoad → Env S → Stage (List PrgLoad × Env S)
  unfolding give_frames free_pages
  load_at bytes s i vaddr done e =
      let n = add_size s.sh_size 4095 / 4096 in
      elim (give_frames vaddr 0 n e.vm e.pmm) [
        | endless ↦ endless
        | faulted ↦ faulted
        | failed r (vm, p) ↦ failed r (done, record e { vm = vm; pmm = p })
        | loaded (vm, p) ↦
            let m =
              if s.sh_type != 8
              then read_to bytes s.sh_offset vaddr s.sh_size e.memory
              else clear_to vaddr s.sh_size e.memory in
            let (grown, heap) = kmalloc e.heap in
            let l : PrgLoad = record { idx = i; vaddr = vaddr; size = s.sh_size } in
            if grown
            then loaded (done ++ (l ∷ []), record { vm = vm; pmm = p; memory = m; heap = heap })
            else elim (unmap t vmm_current vaddr (mul_size n 4096) vm) [
              | none ↦ endless
              | some vm' ↦
                  failed err_alloc (
                    [],
                    record { vm = vm'; pmm = free_pages vaddr n vm p; memory = m; heap = heap },
                  )
            ]
      ]

  pub load_rel_from : ℕ → File → ℕ → ℕ → ℕ → List PrgLoad → Env S → Stage (List PrgLoad × Env S)
  unfolding load_at
  load_rel_from fuel file kernel_end i zero done e = loaded (done, e)
  load_rel_from fuel file kernel_end i (suc n) done e =
      let s = file.shdr i in
      elim (needs_memory s) [
        | false ↦ load_rel_from fuel file kernel_end (i + 1) n done e
        | true ↦ elim (first_free t alloc_vmm fuel kernel_end size_max s.sh_size 0 false e.vm) [
          | none ↦ endless
          | some vaddr ↦ elim (vaddr == 0) [
            | true ↦ failed err_alloc (done, e)
            | false ↦ elim (load_at file.bytes s i vaddr done e) [
              | loaded (done', e') ↦ load_rel_from fuel file kernel_end (i + 1) n done' e'
              | failed r x ↦ failed r x
              | faulted ↦ faulted
              | endless ↦ endless
            ]
          ]
        ]
      ]

  pub load_rel : ℕ → File → ℕ → ℕ → Env S → Stage (List PrgLoad × Env S)
  unfolding load_rel_from
  load_rel fuel file kernel_end e_shnum e = load_rel_from fuel file kernel_end 0 e_shnum [] e

-- The loop by which `elf_load_rel` gives back the frames of a section that it cannot complete frees
-- the first frame only, however many there are.
pub free_same-used :
    (frame n g : ℕ) (p : Pmm)
    → used (free_same frame (n + 1) p) g ≡ (if frame == g then 0 else used p g)
unfolding free_same
free_same-used frame zero g p = free_lem p frame g
free_same-used frame (suc n) g p =
    let e : suc n + 1 ≡ suc (n + 1) = omega arith in
    rw (e, free_same) (free_same-used frame n g (free p frame) ∙ again)
  where
    again : (if frame == g then 0 else used (free p frame) g) ≡ (if frame == g then 0 else used p g)
    again = ground (arith, free_lem p frame g)
