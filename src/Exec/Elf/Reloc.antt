-- ===== src/Exec/Elf/Reloc.antt =====
-- `elf_do_reloc`: symbols are resolved and references to them relocated. `memory` is that of the
-- address space in which the sections are loaded.
use sysx.Base.{
  ℕ, zero, suc, ◌+◌, ◌/◌, ◌%◌, Bool, true, false, not, ◌&&◌, ◌||◌, Option, none, some, List, [],
  ◌∷◌, ◌==◌, ◌!=◌, if◌then◌else◌, add_size, sub_size, get_or,
}
use sysx.Base.Memory.{Memory}
use sysx.Exec.Syms.{SymTable, resolve}
use sysx.Exec.Elf.{
  File, Sym, Rel, PrgLoad, Heap, kmalloc, Stage, loaded, failed, faulted, endless, err_alloc,
  err_invalid_data,
}
use sysx.Exec.Elf.Word.{load, store}

-- The loop over the loaded sections: each with the index adds its address.
unfoldable pub add_sections : List PrgLoad → ℕ → ℕ → ℕ
add_sections [] shndx value = value
add_sections (l ∷ ls) shndx value =
    add_sections ls shndx (if l.idx == shndx then add_size value l.vaddr else value)

-- The value of a symbol, with the address that the kernel's table has for its name, if any.
unfoldable pub symbol_value : List PrgLoad → Option ℕ → Sym → ℕ
unfolding add_sections
symbol_value loads known sym =
    if sym.st_shndx == 0xfff1
    then sym.st_value
    else if sym.st_shndx == 0
    then elim known [ none ↦ sym.st_value | some addr ↦ addr ]
    else add_sections loads sym.st_shndx sym.st_value

-- The address of a name in the kernel's table.
pub kernel_addr : SymTable → List ℕ → Option ℕ
kernel_addr syms name = elim (resolve syms name) [
  | none ↦ none
  | some i ↦ some (get_or syms.syms i (record { name = []; addr = 0 })).addr
]

-- The `switch` for x86.
unfoldable pub apply_reloc : ℕ → ℕ → ℕ → ℕ → Memory → Memory
apply_reloc r_type value addend ref m =
    let absolute : ℕ → ℕ = λ w. add_size (add_size value w) addend in
    let relative : ℕ → ℕ = λ w. add_size (sub_size (add_size value w) ref) addend in
    if r_type == 1
    then store 4 m ref (absolute (load 4 m ref))
    else if r_type == 2
    then store 4 m ref (relative (load 4 m ref))
    else if r_type == 5 || r_type == 7
    then store 4 m ref (add_size value addend)
    else if r_type == 20
    then store 2 m ref (absolute (load 2 m ref))
    else if r_type == 21
    then store 2 m ref (relative (load 2 m ref))
    else if r_type == 22
    then store 1 m ref (absolute (load 1 m ref))
    else if r_type == 23
    then store 1 m ref (relative (load 1 m ref))
    else m

-- The variables of `elf_do_reloc`: the symbol table and the string table at hand, and whether there
-- are any.
pub record RelocState : Type 0 where
  pub symtab : Bool
  pub symtab_idx : ℕ
  pub strtab : Bool
  pub strtab_idx : ℕ
  pub heap : Heap
  pub memory : Memory

-- The first loaded section with the index.
unfoldable pub find_target : List PrgLoad → ℕ → Option PrgLoad
find_target [] idx = none
find_target (l ∷ ls) idx = let rest = find_target ls idx in if l.idx == idx then some l else rest

unfoldable pub then_stage : Stage RelocState → (RelocState → Stage RelocState) → Stage RelocState
then_stage (loaded st) k = k st
then_stage (failed r st) k = failed r st
then_stage faulted k = faulted
then_stage endless k = endless

module _ (file : File) (syms : SymTable) (loads : List PrgLoad) where
  -- One entry of a relocation section; `none` is an access through a null string table.
  pub relocate_entry : Bool → RelocState → PrgLoad → Rel → Option Memory
  unfolding symbol_value kernel_addr apply_reloc
  relocate_entry rela st target r =
      let sym = file.sym st.symtab_idx (r.r_info / 256) in
      let addend = if rela then r.r_addend else 0 in
      let known = kernel_addr syms (file.str st.strtab_idx sym.st_name) in
      if sym.st_shndx == 0 && not st.strtab
      then none
      else if file.header.e_machine == 3
      then some (
          apply_reloc (r.r_info % 256) (symbol_value loads known sym) addend
            (add_size target.vaddr r.r_offset) st.memory)
      else some st.memory

  -- `n` entries of section `i` from index `j` on.
  pub relocate_from : Bool → ℕ → PrgLoad → ℕ → ℕ → RelocState → Option RelocState
  unfolding relocate_entry
  relocate_from rela i target j zero st = some st
  relocate_from rela i target j (suc n) st = elim (relocate_entry rela st target (file.rel i j)) [
    | none ↦ none
    | some m ↦ relocate_from rela i target (j + 1) n (record st { memory = m })
  ]

  -- The symbol table of a relocation section is loaded unless it is at hand.
  unfoldable pub load_symtab : ℕ → RelocState → Stage RelocState
  load_symtab link st =
      if link == st.symtab_idx
      then if st.symtab then loaded st else faulted
      else if (file.shdr link).sh_type != 2
      then failed err_invalid_data st
      else (let (allocated, heap) = kmalloc st.heap in
          if allocated
          then loaded (record st { symtab = true; symtab_idx = link; heap = heap })
          else failed err_alloc (record st { heap = heap }))

  pub load_strtab : ℕ → RelocState → Stage RelocState
  load_strtab link st =
      if link == st.strtab_idx
      then loaded st
      else if (file.shdr link).sh_type != 3
      then failed err_invalid_data st
      else (let (allocated, heap) = kmalloc st.heap in
          if allocated
          then loaded (record st { strtab = true; strtab_idx = link; heap = heap })
          else failed err_invalid_data (record st { heap = heap }))

  -- The entries of a section, with its tables at hand; a section without an entry size divides by 0.
  pub relocate_entries : ℕ → PrgLoad → RelocState → Stage RelocState
  unfolding relocate_from
  relocate_entries i target st =
      let s = file.shdr i in
      let (allocated, heap) = kmalloc st.heap in
      let st' : RelocState = record st { heap = heap } in
      if not allocated
      then failed err_alloc st'
      else if s.sh_entsize == 0
      then faulted
      else elim (relocate_from (s.sh_type == 4) i target 0 (s.sh_size / s.sh_entsize) st') [
        | none ↦ faulted
        | some st'' ↦ loaded st''
      ]

  -- One section of the file.
  unfoldable pub relocate_section : ℕ → RelocState → Stage RelocState
  unfolding load_symtab load_strtab relocate_entries then_stage find_target
  relocate_section i st =
      let s = file.shdr i in
      if s.sh_type == 9 || s.sh_type == 4
      then elim (find_target loads s.sh_info) [
        | none ↦ loaded st
        | some target ↦ then_stage (load_symtab s.sh_link st) (λ with_symbols.
            then_stage (load_strtab (file.shdr s.sh_link).sh_link with_symbols)
              (relocate_entries i target))
      ]
      else loaded st

  -- `n` sections from index `i` on.
  unfoldable pub relocate_sections : ℕ → ℕ → RelocState → Stage RelocState
  unfolding relocate_section then_stage
  relocate_sections i zero st = loaded st
  relocate_sections i (suc n) st = then_stage (relocate_section i st) (relocate_sections (i + 1) n)

  unfoldable pub do_reloc : ℕ → Heap → Memory → Stage RelocState
  unfolding relocate_sections
  do_reloc e_shnum heap m = relocate_sections 0 e_shnum (record {
    symtab = false;
    symtab_idx = 0;
    strtab = false;
    strtab_idx = 0;
    heap = heap;
    memory = m;
  })
