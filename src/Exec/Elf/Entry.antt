-- ===== src/Exec/Elf/Entry.antt =====
-- `elf_load_syms`: which symbol of a table becomes the entry point.
use sysx.Base.{
  ℕ, zero, suc, ◌+◌, ◌/◌, ◌<◌, ◌≡◌, ◌≢◌, refl, ◌∙◌, ◌⊎◌, inl, inr, Bool, true, false, ◌&&◌, ◌||◌,
  some, List, arith, ◌==◌, Bool-cases, if_both,
}
use sysx.Kernel.Cmdline.{same_text}
use sysx.Exec.Elf.{File, Sym, PrgLoad}
use sysx.Exec.Elf.Symbols.{SymState, is_visible, is_entry, place_symbol, read_sym, read_syms}

module _ (file : File) (loads : List PrgLoad) (wanted : List ℕ) (i strtab : ℕ) where
  -- Whether a symbol is visible and has the name that is looked for.
  abbrev pub is_candidate : Sym → Bool
  is_candidate y = is_visible y && same_text (file.str strtab y.st_name) wanted

  read_sym_passes :
      (y : Sym) (st : SymState)
      → (is_candidate y ≡ false) ⊎ (st.entry ≢ 0)
      → (read_sym file loads (some wanted) strtab y st).entry ≡ st.entry
  unfolding read_sym
  read_sym_passes y st h = elim (Bool-cases (is_visible y)) [
    | inr hidden ↦ rw hidden refl
    | inl visible ↦
        elim (Bool-cases (is_entry (some wanted) st.entry (file.str strtab y.st_name))) [
          | inl match ↦ absurd (ground arith)
          | inr other ↦
              rw (visible, other)
                (if_both (λ (q : SymState). q.entry ≡ st.entry)
                  (y.st_info / 16 == 1 || y.st_info / 16 == 2) _ _ refl refl)
        ]
  ]

  read_sym-entry :
      (y : Sym) (st : SymState)
      → is_candidate y ≡ true
      → st.entry ≡ 0
      → (read_sym file loads (some wanted) strtab y st).entry
        ≡ place_symbol loads y.st_shndx y.st_value
  unfolding read_sym
  read_sym-entry y st h e =
      let visible : is_visible y ≡ true = ground arith in
      let match : is_entry (some wanted) st.entry (file.str strtab y.st_name) ≡ true =
        ground arith in
      rw (visible, match) refl

  read_syms_kept :
      (j n : ℕ) (st : SymState)
      → st.entry ≢ 0
      → (read_syms file loads (some wanted) i strtab j n st).entry ≡ st.entry
  unfolding read_syms
  read_syms_kept j zero st h = refl
  read_syms_kept j (suc n) st h =
      let same = read_sym_passes (file.sym i j) st (inr h) in
      read_syms_kept (j + 1) n (read_sym file loads (some wanted) strtab (file.sym i j) st)
        (rw same h)
      ∙ same

  -- The first visible symbol of a table that has the name of the entry becomes the entry point, with
  -- its value placed in the loaded sections, if this is not 0 and there was no entry point before.
  pub read_syms-entry :
      (d j n : ℕ) (st : SymState)
      → d < n
      → st.entry ≡ 0
      → ((k : ℕ) → k < d → is_candidate (file.sym i (j + k)) ≡ false)
      → is_candidate (file.sym i (j + d)) ≡ true
      → place_symbol loads (file.sym i (j + d)).st_shndx (file.sym i (j + d)).st_value ≢ 0
      → (read_syms file loads (some wanted) i strtab j n st).entry
        ≡ place_symbol loads (file.sym i (j + d)).st_shndx (file.sym i (j + d)).st_value
  unfolding read_syms
  read_syms-entry d j zero st lt e before here nz = elim lt [ ]
  read_syms-entry zero j (suc n) st lt e before here nz =
      let z : j + 0 ≡ j = omega arith in
      let at = read_sym-entry (file.sym i j) st (rw z at here) e in
      rw z (
        read_syms_kept (j + 1) n (read_sym file loads (some wanted) strtab (file.sym i j) st)
          (rw at (rw z at nz))
        ∙ at)
  read_syms-entry (suc d) j (suc n) st lt e before here nz =
      let z : j + 0 ≡ j = omega arith in
      let next : j + suc d ≡ j + 1 + d = omega arith in
      let same = read_sym_passes (file.sym i j) st (inl (rw z at (before 0 (omega arith)))) in
      rw next (
        read_syms-entry d (j + 1) n (read_sym file loads (some wanted) strtab (file.sym i j) st)
          (omega arith) (same ∙ e)
          (λ k h.
            let e' : j + suc k ≡ j + 1 + k = omega arith in rw e' at (before (suc k) (omega arith)))
          (rw next at here) (rw next at nz))
