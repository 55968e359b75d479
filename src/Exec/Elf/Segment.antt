-- ===== src/Exec/Elf/Segment.antt =====
-- `elf_load_phdr`: the segments of a program are given pages and loaded. A write through the window
-- that is mapped for copying goes to the physical address that the window leads to at the time, so that
-- `memory` is the physical one. A read of the file gives all the bytes that are asked for.
use sysx.Base.{
  ℕ, zero, suc, ◌+◌, ◌-◌, ◌*◌, ◌/◌, ◌%◌, Bool, true, false, not, ◌&&◌, Option, none, some, List, [],
  ◌∷◌, ◌++◌, bit_and, bit_or, leb, ltb, ◌==◌, ◌!=◌, if◌then◌else◌, add_size, size_max,
}
use sysx.Base.Memory.{Memory}
use sysx.Mm.Vmm.{Target, alloc_map}
use sysx.Mm.Pmm.{Pmm, alloc_free}
use sysx.Exec.Elf.{
  File, Phdr, PrgLoad, Heap, kmalloc, Stage, loaded, failed, faulted, endless, err_alloc,
}
use sysx.Exec.Elf.Unload.{unload_prg}

pub record Env (S : Type 0) : Type 0 where
  pub vm : S
  pub pmm : Pmm
  pub memory : Memory
  pub heap : Heap

-- How many bytes a round of the copy loop treats, and how many of them it reads from the file.
abbrev pub piece_size : ℕ → ℕ → ℕ → ℕ
piece_size paddr memsz offset =
    let sz = 4096 - paddr % 4096 in if ltb memsz (add_size offset sz) then memsz - offset else sz

abbrev pub piece_read : ℕ → ℕ → ℕ → ℕ
piece_read sz filesz offset =
    if leb filesz offset then 0 else if leb (add_size offset sz) filesz then sz else filesz - offset

-- `n` bytes of the file from `off` on are written to `at`, or zeros.
abbrev pub read_to : (ℕ → ℕ) → ℕ → ℕ → ℕ → Memory → Memory
read_to bytes off at n m a = if leb at a && ltb a (at + n) then bytes (off + (a - at)) else m a

abbrev pub clear_to : ℕ → ℕ → Memory → Memory
clear_to at n m a = if leb at a && ltb a (at + n) then 0 else m a

module _ {S : Type 0} (t : Target S) (vmm_current alloc_vmm : ℕ) where
  -- The `while` loop over the bytes of a segment; `none` means that the fuel ran out.
  unfoldable pub copy_from : ℕ → (ℕ → ℕ) → Phdr → ℕ → ℕ → S → Memory → Option (S × Memory)
  copy_from zero bytes ph dst offset s m = none
  copy_from (suc fuel) bytes ph dst offset s m = elim (ltb offset ph.p_memsz) [
    | false ↦ some (s, m)
    | true ↦
        let paddr = t.get_paddr s alloc_vmm (add_size ph.p_vaddr offset) in
        let sz = piece_size paddr ph.p_memsz offset in
        let sz_read = piece_read sz ph.p_filesz offset in
        let s' = t.set_paddr vmm_current dst paddr s in
        let at = t.get_paddr s' vmm_current (add_size dst (paddr % 4096)) in
        copy_from fuel bytes ph dst (add_size offset sz) s' (
          clear_to (at + sz_read) (sz - sz_read)
            (read_to bytes (ph.p_offset + offset) at sz_read m))
  ]

  abbrev pub page_flags : Bool → ℕ → ℕ
  page_flags user p_flags =
      bit_or (bit_or 0x11 (if user then 4 else 0)) (if bit_and p_flags 2 != 0 then 2 else 0)

  -- The loop that gives pages to a segment, from the page at `vaddr` on.
  pub give_pages : Bool → ℕ → ℕ → ℕ → S → Pmm → Stage (S × Pmm)
  give_pages user p_flags vaddr zero s p = loaded (s, p)
  give_pages user p_flags vaddr (suc n) s p = elim (t.get_paddr s alloc_vmm vaddr == 0) [
    | true ↦ elim (alloc_free p 1) [
      | none ↦ endless
      | some (frame, p') ↦ elim (frame == size_max) [
        | true ↦ failed err_alloc (s, p')
        | false ↦
            give_pages user p_flags (add_size vaddr 4096) n
              (t.pgmap alloc_vmm (frame * 4096) vaddr 0 (page_flags user p_flags) s) p'
      ]
    ]
    | false ↦
        let flags = t.get_flags s alloc_vmm vaddr in
        let s' =
          if bit_and p_flags 2 != 0 && bit_and flags 2 == 0
          then t.set_flags alloc_vmm vaddr (bit_or flags 2) s
          else s in
        give_pages user p_flags (add_size vaddr 4096) n s' p
  ]

  -- The cleanup of the error paths.
  pub give_up : ℕ → List PrgLoad → Env S → Stage (List PrgLoad × Env S)
  give_up fuel done e = elim (unload_prg t alloc_vmm fuel done e.vm e.pmm) [
    | none ↦ endless
    | some (s, p) ↦ failed err_alloc ([], record e { vm = s; pmm = p })
  ]

  -- One segment, behind the choice of the window at `dst`.
  pub load_segment :
      ℕ → Bool → (ℕ → ℕ) → Phdr → ℕ → ℕ → List PrgLoad → Env S → Stage (List PrgLoad × Env S)
  unfolding copy_from give_pages give_up
  load_segment fuel user bytes ph i dst done e =
      let off = ph.p_vaddr % 4096 in
      elim (give_pages user ph.p_flags (ph.p_vaddr - off) (add_size ph.p_memsz (off + 4095) / 4096)
        e.vm e.pmm) [
          | endless ↦ endless
          | faulted ↦ faulted
          | failed r (s, p) ↦ give_up fuel done (record e { vm = s; pmm = p })
          | loaded (s, p) ↦ elim (copy_from fuel bytes ph dst 0 s e.memory) [
            | none ↦ endless
            | some (s', m) ↦
                let (grown, heap) = kmalloc e.heap in
                let e' : Env S = record { vm = s'; pmm = p; memory = m; heap = heap } in
                let l : PrgLoad = record { idx = i; vaddr = ph.p_vaddr; size = ph.p_memsz } in
                if grown then loaded (done ++ (l ∷ []), e') else give_up fuel done e'
          ]
        ]

  -- `n` program headers from index `i` on; `dst` is 0 before there is a window.
  pub load_from :
      ℕ → Bool → File → ℕ → ℕ → ℕ → ℕ → List PrgLoad → Env S → Stage (List PrgLoad × Env S)
  unfolding load_segment
  load_from fuel user file kernel_end i zero dst done e =
      loaded (done, if dst == 0 then e else record e { vm = t.pgunmap vmm_current dst 0 e.vm })
  load_from fuel user file kernel_end i (suc n) dst done e =
      let ph = file.phdr i in
      elim (ph.p_type == 1) [
        | false ↦ load_from fuel user file kernel_end (i + 1) n dst done e
        | true ↦
            let window =
              if dst == 0
              then alloc_map t vmm_current fuel 0 4096 kernel_end size_max 0 0 false 3 e.vm
              else some (dst, e.vm) in
            elim window [
              | none ↦ endless
              | some (dst', s) ↦ elim (dst' == 0) [
                | true ↦ give_up fuel done (record e { vm = s })
                | false ↦
                    elim (load_segment fuel user file.bytes ph i dst' done (record e { vm = s })) [
                      | loaded (done', e') ↦
                          load_from fuel user file kernel_end (i + 1) n dst' done' e'
                      | failed r x ↦ failed r x
                      | faulted ↦ faulted
                      | endless ↦ endless
                    ]
              ]
            ]
      ]

  pub load_phdr : ℕ → Bool → File → ℕ → Env S → Stage (List PrgLoad × Env S)
  unfolding load_from
  load_phdr fuel user file kernel_end e =
      let (allocated, heap) = kmalloc e.heap in
      if not allocated
      then failed err_alloc ([], record e { heap = heap })
      else load_from fuel user file kernel_end 0 file.header.e_phnum 0 [] (record e { heap = heap })
