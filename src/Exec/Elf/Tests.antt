-- ===== src/Exec/Elf/Tests.antt =====
-- A small file and two address spaces, runs of the code on them, and the theorems at them.
use sysx.Base.{
  ℕ, ◌/◌, ◌*◌, ◌+◌, ◌%◌, ◌<◌, ◌≤◌, ◌≡◌, ◌≢◌, ◌↔◌, refl, ◌⊎◌, true, Option, none, some, [], ◌∷◌,
  arith, ◌==◌, if◌then◌else◌, size_max, add_size,
}
use sysx.Base.Memory.{Memory}
use sysx.Mm.Vmm.{Target}
use sysx.Mm.Pmm.{Pmm}
use sysx.Exec.Syms.{SymTable}
use sysx.Exec.Elf.{
  Ehdr, Shdr, Phdr, Sym, File, PrgLoad, check_header, ok_elf32, err_check, faulted, err_magic,
}
use sysx.Exec.Elf.Check.{IsForX86, check_header_iff}
use sysx.Exec.Elf.Segment.{Env, copy_from}
use sysx.Exec.Elf.Copy.{segment_byte, copy_from-fills}
use sysx.Exec.Elf.Word.{load}
use sysx.Exec.Elf.Reloc.{find_target, apply_reloc, symbol_value, do_reloc}
use sysx.Exec.Elf.Resolve.{apply_reloc_lem, symbol_value_lem, do_reloc-faults}
use sysx.Exec.Elf.Load.{leave, load_exec, load_ksym, load_kmod, load_check}

abbrev header : Ehdr
header = record {
  e_ident = 0x7f ∷ 0x45 ∷ 0x4c ∷ 0x46 ∷ 1 ∷ 1 ∷ 1 ∷ [];
  e_type = 1;
  e_machine = 3;
  e_version = 1;
  e_entry = 0;
  e_phnum = 0;
  e_shnum = 2;
  e_shstrndx = 1;
}

-- Section 0 is a relocation section for section 1 that names section 0 as its symbols.
abbrev section : ℕ → Shdr
section i = record {
  sh_type = if i == 0 then 9 else 3;
  sh_flags = 0;
  sh_offset = 0;
  sh_size = 16;
  sh_link = 0;
  sh_info = 1;
  sh_entsize = 8;
}

abbrev symbol : Sym
symbol = record { st_name = 0; st_value = 0x20; st_info = 0x12; st_other = 0; st_shndx = 1 }

abbrev file : File
file = record {
  header = header;
  shdr = section;
  phdr =
      λ i. record { p_type = 0; p_offset = 0; p_vaddr = 0; p_filesz = 0; p_memsz = 0; p_flags = 0 };
  sym = λ i j. symbol;
  str = λ i off. 97 ∷ [];
  rel = λ i j. record { r_offset = 0; r_info = 1; r_addend = 0 };
  bytes = λ a. a % 256;
}

abbrev table : SymTable
table = record { syms = []; max_count = 4 }

abbrev part : PrgLoad
part = record { idx = 1; vaddr = 0x5000; size = 16 }

-- Every address leads to itself, but the window at 0x9000 to the page of the state.
abbrev direct : Target ℕ
direct = record {
  pgmap = λ vmm pa va i flags s. s;
  pgunmap = λ vmm va i s. s;
  get_pgsz = λ s vmm va. 0;
  get_paddr = λ s vmm v. if v / 4096 == 9 then s / 4096 * 4096 + v % 4096 else v;
  set_paddr = λ vmm va pa s. pa;
  get_flags = λ s vmm va. 0;
  set_flags = λ vmm va flags s. s;
}

-- Nothing is mapped.
abbrev bare : Target ℕ
bare = record {
  pgmap = λ vmm pa va i flags s. s;
  pgunmap = λ vmm va i s. s;
  get_pgsz = λ s vmm va. size_max;
  get_paddr = λ s vmm v. 0;
  set_paddr = λ vmm va pa s. s;
  get_flags = λ s vmm va. 0;
  set_flags = λ vmm va flags s. s;
}

abbrev segment : Phdr
segment = record {
  p_type = 1;
  p_offset = 0x100;
  p_vaddr = 0x1ff0;
  p_filesz = 0x20;
  p_memsz = 0x30;
  p_flags = 2;
}

abbrev frames : Pmm
frames = record { bitmap = λ i. 0xffff_ffff; frames = 64 }

abbrev env : Env ℕ
env = record { vm = 0; pmm = frames; memory = λ a. 0; heap = [] }

check_header_iff_example : (check_header (some header) ≡ ok_elf32) ↔ IsForX86 header
check_header_iff_example = check_header_iff header

abbrev damaged : Ehdr
damaged = record header { e_ident = [] }

check_header-damaged : check_header (some damaged) ≡ err_magic
unfolding check_header
check_header-damaged = refl

load_check_example :
    (load_exec direct 0 0 0x4000 9 (record file { header = damaged }) true 0 table env
      ≡ leave err_check [] env table)
    × (load_ksym direct 0 0 0x4000 (record file { header = damaged }) table env
        ≡ leave err_check [] env table)
    × (load_kmod direct 0 0 0x4000 9 (record file { header = damaged }) table env
        ≡ leave err_check [] env table)
load_check_example =
    load_check direct 0 0 0x4000 9 0 (record file { header = damaged }) true table env
      (λ e. ground (arith, check_header-damaged)) refl

copy_from-fills_example :
    (s : ℕ) × (m : Memory) × (copy_from direct 0 1 0x31 file.bytes segment 0x9000 0 0 env.memory
      ≡ some (s, m))
    × ((k : ℕ) → k < 0x30 → m (0x1ff0 + k) ≡ segment_byte file.bytes segment k)
    × ((a : ℕ) → ((k : ℕ) → k < 0x30 → a ≢ 0x1ff0 + k) → m a ≡ 0)
copy_from-fills_example =
    copy_from-fills direct 0 1 0x9000 file.bytes segment (λ k. 0x1ff0 + k) (λ k j h p. omega arith)
      (λ k j h h' e. omega arith) (omega arith) (λ s pa k h. ground arith) (λ s k h. ground arith) 0
      env.memory (λ k h. ground arith)

apply_reloc_lem_example :
    (load 4 (apply_reloc 1 0x20 4 0x5000 env.memory) 0x5000
      ≡ add_size (add_size 0x20 (load 4 env.memory 0x5000)) 4)
    × (add_size (load 4 (apply_reloc 2 0x20 4 0x5000 env.memory) 0x5000) 0x5000
        ≡ add_size (add_size 0x20 (load 4 env.memory 0x5000)) 4)
    × (load 4 (apply_reloc 5 0x20 4 0x5000 env.memory) 0x5000 ≡ add_size 0x20 4)
    × (load 4 (apply_reloc 7 0x20 4 0x5000 env.memory) 0x5000 ≡ add_size 0x20 4)
    × ((r_type b : ℕ)
        → (b < 0x5000) ⊎ (0x5004 ≤ b)
        → apply_reloc r_type 0x20 4 0x5000 env.memory b ≡ 0)
apply_reloc_lem_example = apply_reloc_lem 0x20 4 0x5000 env.memory (omega arith)

abbrev known : Option ℕ
known = some 7

symbol_value_lem_example :
    (symbol.st_shndx ≡ 0xfff1 → symbol_value (part ∷ []) known symbol ≡ 0x20)
    × (symbol.st_shndx ≡ 0 → known ≡ none → symbol_value (part ∷ []) known symbol ≡ 0x20)
    × ((addr : ℕ)
        → symbol.st_shndx ≡ 0
        → known ≡ some addr
        → symbol_value (part ∷ []) known symbol ≡ addr)
    × (symbol.st_shndx ≡ part.idx
        → part.idx ≢ 0
        → part.idx ≢ 0xfff1
        → symbol_value (part ∷ []) known symbol ≡ add_size 0x20 0x5000)
symbol_value_lem_example = symbol_value_lem [] [] part known symbol (tt, tt)

do_reloc-faults_example : do_reloc file table (part ∷ []) 2 [] env.memory ≡ faulted
unfolding find_target
do_reloc-faults_example =
    do_reloc-faults file table (part ∷ []) 0 2 part [] env.memory (omega arith) (λ j h. elim h [ ])
      refl refl refl
