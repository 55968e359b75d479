-- ===== src/Exec/Elf/Resolve.antt =====
-- `elf_do_reloc`: the value of a symbol, what a relocation stores, and a fault on the first section.
use sysx.Base.{
  ℕ, zero, suc, ◌+◌, ◌<◌, ◌≤◌, ◌≡◌, ◌≢◌, refl, ◌∙◌, ◌⊎◌, true, false, Option, none, some, List, [],
  ◌∷◌, ◌++◌, arith, ◌==◌, ◌||◌, add_size, sub_size, All, if_both,
}
use sysx.Base.Memory.{Memory}
use sysx.Exec.Syms.{SymTable}
use sysx.Exec.Elf.{File, Sym, PrgLoad, Heap, faulted, loaded}
use sysx.Exec.Elf.Word.{load, store, store_other, load-store_word}
use sysx.Exec.Elf.Reloc.{
  add_sections, symbol_value, apply_reloc, find_target, load_symtab, then_stage, relocate_section,
  relocate_sections, do_reloc, RelocState,
}

-- For every byte outside the four at the reference a relocation changes nothing.
apply_reloc_other :
    (r_type value addend ref : ℕ) (m : Memory) (b : ℕ)
    → (b < ref) ⊎ (ref + 4 ≤ b)
    → apply_reloc r_type value addend ref m b ≡ m b
unfolding apply_reloc
apply_reloc_other r_type value addend ref m b out =
    let four : (w : ℕ) → store 4 m ref w b ≡ m b = λ w. store_other 4 m ref w b out in
    let two : (w : ℕ) → store 2 m ref w b ≡ m b =
      λ w. store_other 2 m ref w b (nearer 2 (omega arith)) in
    let one : (w : ℕ) → store 1 m ref w b ≡ m b =
      λ w. store_other 1 m ref w b (nearer 1 (omega arith)) in
    if_both P (r_type == 1) _ _ (four _) (
      if_both P (r_type == 2) _ _ (four _) (
        if_both P (r_type == 5 || r_type == 7) _ _ (four _) (
          if_both P (r_type == 20) _ _ (two _) (
            if_both P (r_type == 21) _ _ (two _)
              (if_both P (r_type == 22) _ _ (one _) (if_both P (r_type == 23) _ _ (one _) refl))))))
  where
    P : Memory → Type 0
    P m' = m' b ≡ m b

    nearer : (n : ℕ) → n ≤ 4 → (b < ref) ⊎ (ref + n ≤ b)
    nearer n h = ground arith

-- The words that the x86 relocations of four bytes leave at the reference: the absolute one is the
-- value of the symbol, the addend in place and the addend of the entry together, the relative one
-- comes to this sum when the address of the reference is added, and a copy (type 5) and a jump slot (type
-- 7) leave the value and the addend of the entry, without the addend in place. No relocation changes a byte outside the four at the reference.
pub apply_reloc_lem :
    (value addend ref : ℕ) (m : Memory)
    → ref < 0x1_0000_0000
    → (load 4 (apply_reloc 1 value addend ref m) ref
        ≡ add_size (add_size value (load 4 m ref)) addend)
      × (add_size (load 4 (apply_reloc 2 value addend ref m) ref) ref
          ≡ add_size (add_size value (load 4 m ref)) addend)
      × (load 4 (apply_reloc 5 value addend ref m) ref ≡ add_size value addend)
      × (load 4 (apply_reloc 7 value addend ref m) ref ≡ add_size value addend)
      × ((r_type b : ℕ) → (b < ref) ⊎ (ref + 4 ≤ b) → apply_reloc r_type value addend ref m b ≡ m b)
unfolding apply_reloc
apply_reloc_lem value addend ref m small =
    let old = load 4 m ref in
    let sum = add_size (add_size value old) addend in
    let rel = add_size (sub_size (add_size value old) ref) addend in
    (
      load-store_word m ref sum ∙ omega arith,
      rw (load-store_word m ref rel) (omega arith),
      load-store_word m ref (add_size value addend) ∙ omega arith,
      load-store_word m ref (add_size value addend) ∙ omega arith,
      λ r_type b out. apply_reloc_other r_type value addend ref m b out,
    )

-- No section before or after the one with the index has it.
abbrev pub IsLoadedOnce : ℕ → List PrgLoad → List PrgLoad → Type 0
IsLoadedOnce shndx before after = All (λ l. l.idx ≢ shndx) before × All (λ l. l.idx ≢ shndx) after

add_sections_none :
    (loads : List PrgLoad) (shndx value : ℕ)
    → All (λ l. l.idx ≢ shndx) loads
    → add_sections loads shndx value ≡ value
unfolding add_sections
add_sections_none [] shndx value h = refl
add_sections_none (l ∷ ls) shndx value (ne, rest) =
    let other : (l.idx == shndx) ≡ false = ground arith in
    rw (add_sections, other) (add_sections_none ls shndx value rest)

add_sections_once :
    (before after : List PrgLoad) (l : PrgLoad) (value : ℕ)
    → IsLoadedOnce l.idx before after
    → add_sections (before ++ (l ∷ after)) l.idx value ≡ add_size value l.vaddr
unfolding add_sections
add_sections_once [] after l value (h, h') =
    let same : (l.idx == l.idx) ≡ true = ground arith in
    rw (add_sections, same) (add_sections_none after l.idx (add_size value l.vaddr) h')
add_sections_once (k ∷ ks) after l value ((ne, h), h') =
    let other : (k.idx == l.idx) ≡ false = ground arith in
    rw (add_sections, other) (add_sections_once ks after l value (h, h'))

-- An absolute symbol keeps its value, an undefined one has the address of its name in the kernel's
-- table or else its value, and one in a section that was loaded once its value behind the address of
-- that section.
pub symbol_value_lem :
    (before after : List PrgLoad) (l : PrgLoad) (known : Option ℕ) (sym : Sym)
    → IsLoadedOnce l.idx before after
    → let loads = before ++ (l ∷ after) in
      (sym.st_shndx ≡ 0xfff1 → symbol_value loads known sym ≡ sym.st_value)
      × (sym.st_shndx ≡ 0 → known ≡ none → symbol_value loads known sym ≡ sym.st_value)
      × ((addr : ℕ) → sym.st_shndx ≡ 0 → known ≡ some addr → symbol_value loads known sym ≡ addr)
      × (sym.st_shndx ≡ l.idx
          → l.idx ≢ 0
          → l.idx ≢ 0xfff1
          → symbol_value loads known sym ≡ add_size sym.st_value l.vaddr)
unfolding symbol_value
symbol_value_lem before after l known sym once = (
  λ abs. rw abs refl,
  λ undef unknown. rw (undef, unknown) refl,
  λ addr undef found. rw (undef, found) refl,
  λ defined nz na.
      let not_abs : (l.idx == 0xfff1) ≡ false = ground arith in
      let not_undef : (l.idx == 0) ≡ false = ground arith in
      rw (defined, not_abs, not_undef) (add_sections_once before after l sym.st_value once),
)

module _ (file : File) (syms : SymTable) (loads : List PrgLoad) where
  abbrev pub IsNoReloc : ℕ → Type 0
  IsNoReloc i = ((file.shdr i).sh_type ≢ 9) × ((file.shdr i).sh_type ≢ 4)

  abbrev start : Heap → Memory → RelocState
  start heap m = record {
    symtab = false;
    symtab_idx = 0;
    strtab = false;
    strtab_idx = 0;
    heap = heap;
    memory = m;
  }

  section-skips :
      (i : ℕ) (st : RelocState) → IsNoReloc i → relocate_section file syms loads i st ≡ loaded st
  unfolding relocate_section
  section-skips i st (ne, ne') =
      let no_reloc : (file.shdr i).sh_type == 9 || (file.shdr i).sh_type == 4 ≡ false =
        ground arith in
      rw (relocate_section, no_reloc) refl

  section-faults :
      (i : ℕ) (target : PrgLoad) (heap : Heap) (m : Memory)
      → (file.shdr i).sh_type ≡ 9
      → (file.shdr i).sh_link ≡ 0
      → find_target loads (file.shdr i).sh_info ≡ some target
      → relocate_section file syms loads i (start heap m) ≡ faulted
  unfolding relocate_section load_symtab then_stage
  section-faults i target heap m rel link found = rw (relocate_section, rel, found, link) refl

  sections-fault :
      (d base n : ℕ) (target : PrgLoad) (heap : Heap) (m : Memory)
      → d < n
      → ((j : ℕ) → j < d → IsNoReloc (base + j))
      → (file.shdr (base + d)).sh_type ≡ 9
      → (file.shdr (base + d)).sh_link ≡ 0
      → find_target loads (file.shdr (base + d)).sh_info ≡ some target
      → relocate_sections file syms loads base n (start heap m) ≡ faulted
  unfolding relocate_sections then_stage
  sections-fault d base zero target heap m lt before rel link found = elim lt [ ]
  sections-fault zero base (suc n) target heap m lt before rel link found =
      let e : base + 0 ≡ base = omega arith in
      let here = section-faults base target heap m (rw e at rel) (rw e at link) (rw e at found) in
      rw (relocate_sections, here) refl
  sections-fault (suc d) base (suc n) target heap m lt before rel link found =
      let e : base + suc d ≡ base + 1 + d = omega arith in
      let z : base + 0 ≡ base = omega arith in
      let here = section-skips base (start heap m) (rw z at (before 0 (omega arith))) in
      rw (relocate_sections, here)
        (sections-fault d (base + 1) n target heap m (omega arith)
          (λ j h.
            let e' : base + suc j ≡ base + 1 + j = omega arith in
            rw e' at (before (suc j) (omega arith)))
          (rw e at rel) (rw e at link) (rw e at found))

  -- If the first relocation section of a file applies to a loaded section and names section 0 as its
  -- symbol table, `elf_do_reloc` reads through a null pointer, whatever the memory and the heap.
  pub do_reloc-faults :
      (i n : ℕ) (target : PrgLoad) (heap : Heap) (m : Memory)
      → i < n
      → ((j : ℕ) → j < i → IsNoReloc j)
      → (file.shdr i).sh_type ≡ 9
      → (file.shdr i).sh_link ≡ 0
      → find_target loads (file.shdr i).sh_info ≡ some target
      → do_reloc file syms loads n heap m ≡ faulted
  unfolding do_reloc
  do_reloc-faults i n target heap m lt before rel link found =
      sections-fault i 0 n target heap m lt (λ j h. rw (add_zero j) (before j h))
        (rw (add_zero i) rel) (rw (add_zero i) link) (rw (add_zero i) found)
    where
      add_zero : (j : ℕ) → 0 + j ≡ j
      add_zero j = omega arith
