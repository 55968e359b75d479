-- ===== src/Exec/Elf/Load.antt =====
-- `elf_load_exec`, `elf_load_ksym` and `elf_load_kmod`: the stages of the loader put together. What
-- the error paths free of the file's own structures is left out.
use sysx.Base.{
  ℕ, ◌≡◌, ◌≢◌, refl, Bool, true, Option, none, some, List, [], ◌∷◌, ◌!=◌, if◌then◌else◌,
}
use sysx.Mm.Vmm.{Target}
use sysx.Exec.Syms.{SymTable}
use sysx.Exec.Elf.{
  File, PrgLoad, kmalloc, loaded, failed, faulted, endless, LoadResult, load_ok, err_check,
  err_unsupported_type, read_header, read_shdr, check_header, ok_elf32,
}
use sysx.Exec.Elf.Check.{read_header_fails}
use sysx.Exec.Elf.Segment.{Env, load_phdr}
use sysx.Exec.Elf.Sections.{load_rel}
use sysx.Exec.Elf.Reloc.{do_reloc}
use sysx.Exec.Elf.Symbols.{load_syms}

-- The name of the entry of a module, "kmod_init".
abbrev pub kmod_init : List ℕ
kmod_init = 107 ∷ 109 ∷ 111 ∷ 100 ∷ 95 ∷ 105 ∷ 110 ∷ 105 ∷ 116 ∷ []

-- What a load comes to: its code, the loaded parts, the entry and the state.
pub record Load (S : Type 0) : Type 0 where
  pub result : LoadResult
  pub parts : List PrgLoad
  pub entry : ℕ
  pub env : Env S
  pub syms : SymTable

-- A stage leaves the loader with this.
abbrev pub leave : {S : Type 0} → LoadResult → List PrgLoad → Env S → SymTable → Option (Load S)
leave r parts e syms = some (record { result = r; parts = parts; entry = 0; env = e; syms = syms })

module _ {S : Type 0} (t : Target S) (vmm_current vmm_kernel kernel_end : ℕ) where
  -- `none` is a fault or a load that does not end.
  pub load_exec : ℕ → File → Bool → ℕ → SymTable → Env S → Option (Load S)
  load_exec fuel file user alloc_vmm syms e = elim (read_header file e.heap) [
    | endless ↦ none
    | faulted ↦ none
    | failed r (is_elf64, heap) ↦ leave r [] (record e { heap = heap }) syms
    | loaded (is_elf64, heap) ↦
        if file.header.e_type != 2
        then leave err_unsupported_type [] (record e { heap = heap }) syms
        else elim (load_phdr t vmm_current alloc_vmm fuel user file kernel_end
            (record e { heap = heap })) [
              | endless ↦ none
              | faulted ↦ none
              | failed r (parts, e') ↦ leave r [] e' syms
              | loaded (parts, e') ↦ some (record {
                result = load_ok;
                parts = parts;
                entry = file.header.e_entry;
                env = e';
                syms = syms;
              })
            ]
  ]

  pub load_ksym : File → SymTable → Env S → Option (Load S)
  load_ksym file syms e = elim (read_header file e.heap) [
    | endless ↦ none
    | faulted ↦ none
    | failed r (is_elf64, heap) ↦ leave r [] (record e { heap = heap }) syms
    | loaded (is_elf64, heap) ↦
        if file.header.e_type != 2
        then leave err_unsupported_type [] (record e { heap = heap }) syms
        else elim (read_shdr file heap) [
          | endless ↦ none
          | faulted ↦ none
          | failed r (n, heap') ↦ leave r [] (record e { heap = heap' }) syms
          | loaded (n, heap') ↦ elim (load_syms file [] none n syms heap') [
            | endless ↦ none
            | faulted ↦ none
            | failed r st ↦ leave r [] (record e { heap = st.heap }) st.syms
            | loaded st ↦ leave load_ok [] (record e { heap = st.heap }) st.syms
          ]
        ]
  ]

  -- The part of `elf_load_kmod` behind the sections.
  pub finish_kmod : File → ℕ → SymTable → List PrgLoad → Env S → Option (Load S)
  finish_kmod file n syms parts e = elim (do_reloc file syms parts n e.heap e.memory) [
    | endless ↦ none
    | faulted ↦ none
    | failed r st ↦ leave r [] (record e { heap = st.heap; memory = st.memory }) syms
    | loaded st ↦
        let e' : Env S = record e { heap = st.heap; memory = st.memory } in
        elim (load_syms file parts (some kmod_init) n syms st.heap) [
          | endless ↦ none
          | faulted ↦ none
          | failed r y ↦ leave r [] (record e' { heap = y.heap }) y.syms
          | loaded y ↦ some (record {
            result = load_ok;
            parts = parts;
            entry = y.entry;
            env = record e' { heap = y.heap };
            syms = y.syms;
          })
        ]
  ]

  pub load_kmod : ℕ → File → SymTable → Env S → Option (Load S)
  unfolding finish_kmod
  load_kmod fuel file syms e = elim (read_header file e.heap) [
    | endless ↦ none
    | faulted ↦ none
    | failed r (is_elf64, heap) ↦ leave r [] (record e { heap = heap }) syms
    | loaded (is_elf64, heap) ↦
        if file.header.e_type != 1
        then leave err_unsupported_type [] (record e { heap = heap }) syms
        else elim (read_shdr file heap) [
          | endless ↦ none
          | faulted ↦ none
          | failed r (n, heap') ↦ leave r [] (record e { heap = heap' }) syms
          | loaded (n, heap') ↦
              elim (load_rel t vmm_current vmm_kernel fuel file kernel_end n
                (record e { heap = heap' })) [
                  | endless ↦ none
                  | faulted ↦ none
                  | failed r (parts, e') ↦ leave r [] e' syms
                  | loaded (parts, e') ↦ finish_kmod file n syms parts e'
                ]
        ]
  ]

  -- A file whose header is not that of a 32-bit x86 file is refused with ERR_CHECK by all three loaders,
  -- and nothing but the memory for the header has been asked for.
  pub load_check :
      (fuel alloc_vmm : ℕ) (file : File) (user : Bool) (syms : SymTable) (e : Env S)
      → check_header (some file.header) ≢ ok_elf32
      → (kmalloc e.heap).0 ≡ true
      → let refused = leave err_check [] (record e { heap = (kmalloc e.heap).1 }) syms in
        (load_exec fuel file user alloc_vmm syms e ≡ refused)
        × (load_ksym file syms e ≡ refused)
        × (load_kmod fuel file syms e ≡ refused)
  unfolding load_exec load_ksym load_kmod
  load_check fuel alloc_vmm file user syms e bad allocated =
      let fails = read_header_fails file e.heap bad allocated in
      (rw (load_exec, fails) refl, rw (load_ksym, fails) refl, rw (load_kmod, fails) refl)
