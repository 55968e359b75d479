-- ===== src/Exec/Elf.antt =====
-- exec/elf.c on a 32-bit x86, where ELF_FORCE_CLASS is ELFCLASS32: the structures of a file, and the
-- check of its header. A file is known by what the reads of its structures give.
pub mod Check
pub mod Segment
pub mod Copy
pub mod Unload
pub mod Sections
pub mod Word
pub mod Reloc
pub mod Resolve
pub mod Symbols
pub mod Entry
pub mod Load
mod Tests
use sysx.Base.{
  ℕ, zero, suc, ◌+◌, Bool, true, false, not, ◌&&◌, ◌||◌, Option, none, some, List, [], ◌∷◌, ltb,
  leb, ◌==◌, ◌!=◌, if◌then◌else◌, get_or,
}

pub record Ehdr : Type 0 where
  pub e_ident : List ℕ
  pub e_type : ℕ
  pub e_machine : ℕ
  pub e_version : ℕ
  pub e_entry : ℕ
  pub e_phnum : ℕ
  pub e_shnum : ℕ
  pub e_shstrndx : ℕ

pub record Shdr : Type 0 where
  pub sh_type : ℕ
  pub sh_flags : ℕ
  pub sh_offset : ℕ
  pub sh_size : ℕ
  pub sh_link : ℕ
  pub sh_info : ℕ
  pub sh_entsize : ℕ

pub record Phdr : Type 0 where
  pub p_type : ℕ
  pub p_offset : ℕ
  pub p_vaddr : ℕ
  pub p_filesz : ℕ
  pub p_memsz : ℕ
  pub p_flags : ℕ

pub record Sym : Type 0 where
  pub st_name : ℕ
  pub st_value : ℕ
  pub st_info : ℕ
  pub st_other : ℕ
  pub st_shndx : ℕ

-- `Elf32_Rela`, without its addend `Elf32_Rel`.
pub record Rel : Type 0 where
  pub r_offset : ℕ
  pub r_info : ℕ
  pub r_addend : ℕ

-- What the reads give: the headers, the entries of symbol and relocation tables by section and index,
-- the strings by section and offset, and the bytes.
pub record File : Type 0 where
  pub header : Ehdr
  pub shdr : ℕ → Shdr
  pub phdr : ℕ → Phdr
  pub sym : ℕ → ℕ → Sym
  pub str : ℕ → ℕ → List ℕ
  pub rel : ℕ → ℕ → Rel
  pub bytes : ℕ → ℕ

-- `elf_prgload_t`.
pub record PrgLoad : Type 0 where
  pub idx : ℕ
  pub vaddr : ℕ
  pub size : ℕ

-- `enum elf_check_result`.
pub data CheckResult : Type 0 where
  ok_elf32 ok_elf64 err_nullbuf err_magic err_class err_endian err_version err_type : CheckResult
  err_machine : CheckResult

-- `enum elf_load_result`.
pub data LoadResult : Type 0 where
  load_ok err_check err_alloc err_unsupported_type err_invalid_data err_entry : LoadResult

-- The types that the check lets pass; the last two are the bounds of a range.
abbrev pub is_bad_type : Bool → ℕ → Bool
is_bad_type is_elf64 t =
    t != 0
    && t != 1
    && t != 2
    && t != 3
    && t != 4
    && ltb t 0xff00
    && not (not is_elf64 || (leb 0xfe00 t && leb t 0xfeff))

pub check_header : Option Ehdr → CheckResult
check_header none = err_nullbuf
check_header (some h) =
    let ident : ℕ → ℕ = λ i. get_or h.e_ident i 0 in
    let is_elf64 = ident 4 == 2 in
    if ident 0 != 0x7f
    then err_magic
    else if ident 1 != 0x45
    then err_magic
    else if ident 2 != 0x4c
    then err_magic
    else if ident 3 != 0x46
    then err_magic
    else if ident 4 != 1 && ident 4 != 2
    then err_class
    else if ident 4 != 1
    then err_class
    else if ident 5 != 1
    then err_endian
    else if ident 6 != 1
    then err_version
    else if is_bad_type is_elf64 h.e_type
    then err_type
    else if h.e_version != 1
    then err_version
    else if h.e_machine != 0 && h.e_machine != 3
    then err_machine
    else if is_elf64
    then ok_elf64
    else ok_elf32

-- `kmalloc` and `krealloc` succeed or fail as the list says, and succeed behind its end.
abbrev pub Heap : Type 0
Heap = List Bool

abbrev pub kmalloc : Heap → Bool × Heap
kmalloc [] = (true, [])
kmalloc (b ∷ heap) = (b, heap)

-- What a stage of the loader comes to; a call can also fault on a null pointer or not end.
pub data Stage (A : Type 0) : Type 0 where
  loaded : A → Stage A
  failed : LoadResult → A → Stage A
  faulted : Stage A
  endless : Stage A

-- `elf_read_header`: the class, which is that of ELF64 or not.
pub read_header : File → Heap → Stage (Bool × Heap)
unfolding check_header
read_header file heap =
    let (allocated, heap') = kmalloc heap in
    if not allocated
    then failed err_alloc (false, heap')
    else elim (check_header (some file.header)) [
      | ok_elf32 ↦ loaded (false, heap')
      | ok_elf64 ↦ loaded (true, heap')
      | _ ↦ failed err_check (false, heap')
    ]

-- `elf_read_shdr`: the number of sections; the table of section names is not used later.
pub read_shdr : File → Heap → Stage (ℕ × Heap)
read_shdr file heap =
    let (allocated, heap') = kmalloc heap in
    let n = file.header.e_shnum in
    if not allocated
    then failed err_alloc (n, heap')
    else if (file.shdr file.header.e_shstrndx).sh_type != 3
    then failed err_invalid_data (n, heap')
    else (let (named, heap'') = kmalloc heap' in
        if not named then failed err_alloc (n, heap'') else loaded (n, heap''))
