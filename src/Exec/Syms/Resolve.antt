-- ===== src/Exec/Syms/Resolve.antt =====
-- A symbol that was added is found, if its name fits.
use sysx.Base.{
  ℕ, zero, suc, ◌+◌, ◌≤◌, ◌≡◌, ◌⊎◌, ◌∙◌, ap, refl, sym, subst, Bool, true, false, none, some, List,
  [], ◌∷◌, ◌++◌, arith, ltb, ◌!=◌, length, set, Bool-cases, Option-cases, inl, inr,
}
use sysx.Exec.Syms.{
  SymEntry, SymTable, name_maxlen, stored, same_bytes, find_sym, resolve, add_entry,
}

same_bytes_refl : (n : ℕ) (a : List ℕ) → same_bytes n a a ≡ true
unfolding same_bytes
same_bytes_refl zero a = refl
same_bytes_refl (suc n) [] = refl
same_bytes_refl (suc n) (c ∷ cs) = ground (arith, same_bytes_refl n cs)

-- Writing the name over an entry that has it, or behind a table that has not, leaves it found there.
find_sym-set :
    (es : List SymEntry) (n i : ℕ) (name : List ℕ) (addr : ℕ)
    → find_sym es n name ≡ some i
    → find_sym (set es i (record { name = name; addr = addr })) n name ≡ some i
unfolding find_sym
find_sym-set [] n i name addr h = cc
find_sym-set (e ∷ es) n zero name addr h = rw (same_bytes_refl n name)
find_sym-set (e ∷ es) n (suc i) name addr h = elim (Bool-cases (same_bytes n e.name name)) [
  | inl here ↦ let h' = rw (here, find_sym) at h in ground arith
  | inr there ↦ elim (Option-cases (find_sym es n name)) [
    | inl missing ↦ let h' = rw (there, missing, find_sym) at h in cc
    | inr (j, found) ↦
        let h' = rw (there, found, find_sym) at h in
        let same : j ≡ i = ground arith in
        let next : i + 1 ≡ suc i = omega arith in
        rw (there, find_sym-set es n i name addr (found ∙ ap some same)) (ap some next)
  ]
]

find_sym-append :
    (es : List SymEntry) (n : ℕ) (name : List ℕ) (addr : ℕ)
    → find_sym es n name ≡ none
    → find_sym (es ++ (record { name = name; addr = addr } ∷ [])) n name ≡ some (length es)
unfolding find_sym
find_sym-append [] n name addr h = rw (same_bytes_refl n name)
find_sym-append (e ∷ es) n name addr h = elim (Bool-cases (same_bytes n e.name name)) [
  | inl here ↦ let h' = rw (here, find_sym) at h in cc
  | inr there ↦ elim (Option-cases (find_sym es n name)) [
    | inr (j, found) ↦ let h' = rw (there, found, find_sym) at h in cc
    | inl missing ↦
        let next : length es + 1 ≡ suc (length es) = omega arith in
        rw (there, find_sym-append es n name addr missing) (ap some next)
  ]
]

-- A symbol whose name has at most 47 characters is found after `sym_add_entry`, at the index that was
-- returned, unless the call failed, which leaves the table as it was.
pub resolve-add_entry :
    (allocated : Bool) (t : SymTable) (name : List ℕ) (addr : ℕ)
    → length name ≤ name_maxlen
    → let (i, r) = add_entry allocated t name addr in (resolve r name ≡ i) ⊎ ((i ≡ none) × (r ≡ t))
unfolding add_entry resolve
resolve-add_entry allocated t name addr fits =
    let short : ltb name_maxlen (length name) ≡ false = ground arith in
    let whole : stored name ≡ name = rw short in
    elim (Option-cases (find_sym t.syms (length name + 1) name)) [
      | inr (i, found) ↦
          rw (short, found, add_entry)
            (inl (
              subst
                (λ s.
                  find_sym (set t.syms i (record { name = s; addr = addr })) (length name + 1) name
                  ≡ some i)
                (sym whole) (find_sym-set t.syms (length name + 1) i name addr found)))
      | inl missing ↦
          let added =
            subst
              (λ s.
                find_sym (t.syms ++ (record { name = s; addr = addr } ∷ [])) (length name + 1) name
                ≡ some (length t.syms))
              (sym whole) (find_sym-append t.syms (length name + 1) name addr missing) in
          rw (short, missing, add_entry)
            (elim (Bool-cases (length t.syms != t.max_count)) [
              | inl room ↦ rw room (inl added)
              | inr full ↦ elim (Bool-cases allocated) [
                | inl more ↦ rw (full, more) (inl added)
                | inr less ↦ rw (full, less) (inr (refl, refl))
              ]
            ])
    ]
