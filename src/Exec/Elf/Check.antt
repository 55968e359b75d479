-- ===== src/Exec/Elf/Check.antt =====
-- `elf_check_header`: the headers that it accepts, and the codes that it can return.
use sysx.Base.{Bool, true, false, ◌≡◌, ◌≢◌, ◌↔◌, refl, ◌⊎◌, some, arith, get_or}
use sysx.Exec.Elf.{
  Ehdr, File, Heap, kmalloc, check_header, read_header, CheckResult, ok_elf32, ok_elf64, err_type,
  err_nullbuf, err_magic, err_class, err_endian, err_version, err_machine, Stage, loaded, failed,
  err_check,
}

-- The header of a 32-bit file, little-endian and in the current version, for x86 or any machine.
abbrev pub IsForX86 : Ehdr → Type 0
IsForX86 h =
    (get_or h.e_ident 0 0 ≡ 0x7f)
    × (get_or h.e_ident 1 0 ≡ 0x45)
    × (get_or h.e_ident 2 0 ≡ 0x4c)
    × (get_or h.e_ident 3 0 ≡ 0x46)
    × (get_or h.e_ident 4 0 ≡ 1)
    × (get_or h.e_ident 5 0 ≡ 1)
    × (get_or h.e_ident 6 0 ≡ 1)
    × (h.e_version ≡ 1)
    × ((h.e_machine ≡ 0) ⊎ (h.e_machine ≡ 3))

-- `elf_check_header` returns OK_ELF32 for exactly the headers of 32-bit, little-endian files of the
-- current version for x86 or for no machine, whatever type they have.
pub check_header_iff : (h : Ehdr) → (check_header (some h) ≡ ok_elf32) ↔ IsForX86 h
unfolding check_header
check_header_iff h = ground arith

-- On this target `elf_check_header` never returns ERR_TYPE, so that no type is refused, and never
-- OK_ELF64.
pub check_header_type :
    (h : Ehdr) → (check_header (some h) ≢ err_type) × (check_header (some h) ≢ ok_elf64)
unfolding check_header
check_header_type h = (λ e. ground arith, λ e. ground arith)

-- `elf_read_header` fails on every header that is not accepted.
pub read_header_fails :
    (file : File) (heap : Heap)
    → check_header (some file.header) ≢ ok_elf32
    → (kmalloc heap).0 ≡ true
    → read_header file heap ≡ failed err_check (false, (kmalloc heap).1)
unfolding read_header
read_header_fails file heap bad allocated =
    rw allocated (result (check_header (some file.header)) refl)
  where
    result :
        (c : CheckResult)
        → check_header (some file.header) ≡ c
        → elim c as (λ x. Stage (Bool × Heap)) [
          | ok_elf32 ↦ loaded (false, (kmalloc heap).1)
          | ok_elf64 ↦ loaded (true, (kmalloc heap).1)
          | _ ↦ failed err_check (false, (kmalloc heap).1)
        ]
          ≡ failed err_check (false, (kmalloc heap).1)
    result ok_elf32 e = absurd (bad e)
    result ok_elf64 e = absurd ((check_header_type file.header).1 e)
    result err_nullbuf e = refl
    result err_magic e = refl
    result err_class e = refl
    result err_endian e = refl
    result err_version e = refl
    result err_type e = refl
    result err_machine e = refl
