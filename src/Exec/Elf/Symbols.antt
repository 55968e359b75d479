-- ===== src/Exec/Elf/Symbols.antt =====
-- `elf_load_syms`: the symbols of a file go to a table, and one of them is looked for as the entry.
use sysx.Base.{
  ℕ, zero, suc, ◌+◌, ◌/◌, ◌%◌, Bool, false, not, ◌&&◌, ◌||◌, Option, none, some, List, [], ◌∷◌,
  ◌==◌, ◌!=◌, if◌then◌else◌, add_size,
}
use sysx.Kernel.Cmdline.{same_text}
use sysx.Exec.Syms.{SymTable, add_entry}
use sysx.Exec.Elf.{
  File, Sym, PrgLoad, Heap, kmalloc, Stage, loaded, failed, faulted, err_alloc, endless,
  err_invalid_data,
}

-- The table that is filled, and the entry point, 0 while there is none. An answer of the heap is taken
-- for each call of `sym_add_entry`.
pub record SymState : Type 0 where
  pub syms : SymTable
  pub entry : ℕ
  pub heap : Heap

abbrev pub is_visible : Sym → Bool
is_visible y =
    y.st_other != 2
    && y.st_shndx != 0
    && y.st_shndx != 0xfff1
    && y.st_info % 16 != 4
    && y.st_info % 16 != 3

-- The first loaded section with the index adds its address.
unfoldable pub place_symbol : List PrgLoad → ℕ → ℕ → ℕ
place_symbol [] shndx value = value
place_symbol (l ∷ ls) shndx value =
    let rest = place_symbol ls shndx value in
    if l.idx == shndx then add_size value l.vaddr else rest

-- Whether the symbol is the entry that is looked for.
abbrev pub is_entry : Option (List ℕ) → ℕ → List ℕ → Bool
is_entry none entry name = false
is_entry (some wanted) entry name = entry == 0 && same_text name wanted

module _ (file : File) (loads : List PrgLoad) (entry_name : Option (List ℕ)) where
  -- One symbol of section `i`, with its string table.
  unfoldable pub read_sym : ℕ → Sym → SymState → SymState
  unfolding place_symbol
  read_sym strtab y st =
      let value = place_symbol loads y.st_shndx y.st_value in
      let name = file.str strtab y.st_name in
      if not (is_visible y)
      then st
      else if is_entry entry_name st.entry name
      then record st { entry = value }
      else if y.st_info / 16 == 1 || y.st_info / 16 == 2
      then (let (allocated, heap) = kmalloc st.heap in
          record st { syms = (add_entry allocated st.syms name value).1; heap = heap })
      else st

  -- `n` symbols of section `i` from index `j` on.
  unfoldable pub read_syms : ℕ → ℕ → ℕ → ℕ → SymState → SymState
  unfolding read_sym
  read_syms i strtab j zero st = st
  read_syms i strtab j (suc n) st = read_syms i strtab (j + 1) n (read_sym strtab (file.sym i j) st)

  -- One section; without an entry size the division faults.
  pub load_sym_section : ℕ → SymState → Stage SymState
  unfolding read_syms
  load_sym_section i st =
      let s = file.shdr i in
      if s.sh_type != 2
      then loaded st
      else if (file.shdr s.sh_link).sh_type != 3
      then failed err_invalid_data st
      else (let (named, heap) = kmalloc st.heap in
          let (allocated, heap') = kmalloc heap in
          if not named
          then failed err_alloc (record st { heap = heap })
          else if not allocated
          then failed err_alloc (record st { heap = heap' })
          else if s.sh_entsize == 0
          then faulted
          else loaded
              (read_syms i s.sh_link 0 (s.sh_size / s.sh_entsize) (record st { heap = heap' })))

  pub load_syms_from : ℕ → ℕ → SymState → Stage SymState
  unfolding load_sym_section
  load_syms_from i zero st = loaded st
  load_syms_from i (suc n) st = elim (load_sym_section i st) [
    | loaded st' ↦ load_syms_from (i + 1) n st'
    | failed r st' ↦ failed r st'
    | faulted ↦ faulted
    | endless ↦ endless
  ]

  pub load_syms : ℕ → SymTable → Heap → Stage SymState
  unfolding load_syms_from
  load_syms e_shnum syms heap =
      load_syms_from 0 e_shnum (record { syms = syms; entry = 0; heap = heap })
