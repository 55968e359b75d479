-- ===== src/Fs/Ftab/Open.antt =====
-- `ftab_open`: what it leaves behind.
use sysx.Base.{
  ℕ, ◌+◌, ◌%◌, ◌<◌, ◌≡◌, ◌≢◌, ◌⊎◌, inl, inr, refl, sym, ap, ◌∙◌, Bool, true, false, not, ◌&&◌, ◌||◌,
  Option, none, some, List, arith, ◌==◌, ◌!=◌, if◌then◌else◌, length, get_or, set, get_or-set_self,
  get_or-set_ne, Bool-cases,
}
use sysx.Fs.Ftab.{
  Entry, blank, differs, Ftab, FileOps, Result, waits, returns, refs_mod, find, open_first,
  open_again, open_file,
}
use sysx.Fs.Ftab.Room.{IsSound, set-IsSound, get_or-IsEntry, Roomy, make_room-Roomy}

-- The entry `e` after an opening, where it was `old`: one holder more, the modes of both, and only for a
-- process that may; an opening with exclusive access is that of an entry without holders.
abbrev pub Entered : Entry → Entry → ℕ → ℕ → Bool → Bool → Bool → Type 0
Entered old e node proc read write excl =
    (e.node ≡ node)
    × (e.refs ≡ old.refs + 1)
    × (e.read ≡ (read || old.read))
    × (e.write ≡ (write || old.write))
    × ((old.excl ≡ 0) ⊎ (old.excl ≡ proc))
    × (excl ≡ true → (old.refs ≡ 0) × (e.excl ≡ proc))

-- What `ftab_open` comes to, for a table with the entries `es`: an entry for the node, and the others as
-- they were; or no entry, all as they were and no mutex held; or no entry and the mutexes held, after
-- the first opening of a node failed.
unfoldable pub Opened :
    {S : Type 0}
    → FileOps S
    → ℕ
    → ℕ
    → Bool
    → Bool
    → Bool
    → List Entry
    → S
    → Result (Ftab S) (Option ℕ)
    → Type 0
Opened ops node proc read write excl es s waits = ⊥
Opened ops node proc read write excl es s (returns none t) =
    (IsSound t.entries
      × (t.locked ≡ false)
      × ((j : ℕ) → get_or t.entries j blank ≡ get_or es j blank))
    ⊎ (((ops.on_open node read write s).0 ≡ false) × (t.locked ≡ true))
Opened ops node proc read write excl es s (returns (some i) t) =
    IsSound t.entries
    × (t.locked ≡ false)
    × Entered (get_or es i blank) (get_or t.entries i blank) node proc read write excl
    × ((j : ℕ) → j ≢ i → get_or t.entries j blank ≡ get_or es j blank)

module _ {S : Type 0} (ops : FileOps S) (node proc : ℕ) (read write excl : Bool) (s : S) where
  kept :
      (es : List Entry) (s' : S)
      → IsSound es
      → Opened ops node proc read write excl es s
          (returns none (record { entries = es; locked = false; files = s' }))
  unfolding Opened
  kept es s' h = inl (h, refl, λ j. refl)

  stuck :
      (es gs : List Entry) (s' : S)
      → (ops.on_open node read write s).0 ≡ false
      → Opened ops node proc read write excl es s
          (returns none (record { entries = gs; locked = true; files = s' }))
  unfolding Opened
  stuck es gs s' h = inr (h, refl)

  stored :
      (es : List Entry) (idx : ℕ) (e : Entry) (s' : S)
      → IsSound es
      → idx < length es
      → node ≢ 0
      → e.locked ≡ false
      → e.refs < refs_mod
      → Entered (get_or es idx blank) e node proc read write excl
      → Opened ops node proc read write excl es s
          (returns (some idx) (record { entries = set es idx e; locked = false; files = s' }))
  unfolding Opened
  stored es idx e s' h lt nz free small entered =
      let (at, more, r, w, may, alone) = entered in
      rw (get_or-set_self es idx e blank lt) (
        set-IsSound es idx e h (free, inr (rw at nz, omega (arith, more), small)),
        refl,
        entered,
        λ j other. get_or-set_ne es idx j e blank (λ q. other (sym q)),
      )

  open_first-Opened :
      (es : List Entry) (idx : ℕ)
      → IsSound es
      → idx < length es
      → node ≢ 0
      → get_or es idx blank ≡ blank
      → Opened ops node proc read write excl es s
          (open_first ops es idx node proc read write excl s)
  unfolding open_first
  open_first-Opened es idx h lt nz empty = elim (Bool-cases (ops.on_open node read write s).0) [
    | inl ok ↦ rw ok (
        stored es idx _ (ops.on_open node read write s).1 h lt nz refl (omega arith)
          (rw empty (refl, refl, ground arith, ground arith, inl refl, λ x. (refl, rw x refl))))
    | inr ko ↦ rw ko (stuck es _ _ ko)
  ]

  open_again-Opened :
      (es : List Entry) (idx : ℕ)
      → IsSound es
      → idx < length es
      → node ≢ 0
      → (get_or es idx blank).node ≡ node
      → (get_or es idx blank).locked ≡ false
      → 0 < (get_or es idx blank).refs
      → (get_or es idx blank).refs + 1 < refs_mod
      → Opened ops node proc read write excl es s
          (open_again ops es idx node proc read write excl s)
  unfolding open_again
  open_again-Opened es idx h lt nz at free held small =
      let e = get_or es idx blank in
      let read' = read || e.read in
      let write' = write || e.write in
      let count : (e.refs + 1) % refs_mod ≡ e.refs + 1 = omega arith in
      elim (Bool-cases (e.excl != 0 && e.excl != proc)) [
        | inl theirs ↦ rw theirs (kept es s h)
        | inr open_to ↦
            let may : (e.excl ≡ 0) ⊎ (e.excl ≡ proc) = ground (arith, open_to) in
            elim (Bool-cases (excl && e.refs != 0)) [
              | inl busy ↦ rw (open_to, busy) (kept es s h)
              | inr joins ↦
                  let alone : excl ≡ true → (e.refs ≡ 0) × (e.excl ≡ proc) =
                    λ x. absurd (ground (arith, joins, x, held)) in
                  elim (Bool-cases (not (differs read' e.read || differs write' e.write))) [
                    | inl same ↦
                        let r : e.read ≡ read' = ground (arith, same) in
                        let w : e.write ≡ write' = ground (arith, same) in
                        rw (open_to, joins, same, count)
                          (stored es idx (record e { refs = e.refs + 1 }) s h lt nz free small
                            (at, refl, r, w, may, alone))
                    | inr more ↦ elim (Bool-cases (ops.on_open node read' write' s).0) [
                      | inr ko ↦ rw (open_to, joins, more, ko) (kept es _ h)
                      | inl ok ↦
                          rw (open_to, joins, more, ok, count)
                            (stored es idx
                              (record e { read = read'; write = write'; refs = e.refs + 1 })
                              (ops.on_open node read' write' s).1 h lt nz free small
                              (at, refl, refl, refl, may, alone))
                    ]
                  ]
            ]
      ]

module _ {S : Type 0} (ops : FileOps S) where
  -- What holds of a table with more room holds of the table without.
  Opened-room :
      (node proc : ℕ) (read write excl : Bool) (es gs : List Entry) (s : S)
      (r : Result (Ftab S) (Option ℕ))
      → ((j : ℕ) → get_or gs j blank ≡ get_or es j blank)
      → Opened ops node proc read write excl gs s r
      → Opened ops node proc read write excl es s r
  unfolding Opened
  Opened-room node proc read write excl es gs s waits same h = h
  Opened-room node proc read write excl es gs s (returns none t) same (inl (sound, free, kept)) =
      inl (sound, free, λ j. kept j ∙ same j)
  Opened-room node proc read write excl es gs s (returns none t) same (inr failed) = inr failed
  Opened-room node proc read write excl es gs s (returns (some i) t) same
        (sound, free, entered, others) =
      (sound, free, rw (sym (same i)) entered, λ j ne. others j ne ∙ same j)

  -- With a well-formed table, no mutex held and a count of holders that does not overflow,
  -- `ftab_open` of a node returns an entry or none. The entry has the node, one holder more than before
  -- and its modes with those that were asked for; before, no other process had it alone, and if it was
  -- asked for alone, it had no holder and is now the process's. All other entries are as they were, no
  -- mutex is held, and the table is well formed. With none, all entries are as they were and no mutex is
  -- held, or the first opening of the node failed and the mutex of the table is left held.
  pub open_file-Opened :
      (allocated : Bool) (node proc : ℕ) (read write excl : Bool) (t : Ftab S)
      → IsSound t.entries
      → t.locked ≡ false
      → node ≢ 0
      → (get_or t.entries (find t.entries node) blank).refs + 1 < refs_mod
      → Opened ops node proc read write excl t.entries t.files
          (open_file ops allocated node proc read write excl t)
  unfolding open_file
  open_file-Opened allocated node proc read write excl t h free nz small =
      rw free (choose _ (make_room-Roomy allocated t.entries node h))
    where
      entered :
          (gs : List Entry)
          → Roomy t.entries node (some gs)
          → Opened ops node proc read write excl gs t.files (
              if (get_or gs (find t.entries node) blank).node == 0
              then open_first ops gs (find t.entries node) node proc read write excl t.files
              else open_again ops gs (find t.entries node) node proc read write excl t.files)
      entered gs (sound, (lt, at), same) =
          let (unlocked, state) = get_or-IsEntry gs (find t.entries node) sound in
          elim state [
            | inl empty ↦ rw (ap (λ (e : Entry). e.node) empty) (
                open_first-Opened ops node proc read write excl t.files gs (find t.entries node)
                  sound lt nz empty)
            | inr (used, held, fits) ↦
                let here : (get_or gs (find t.entries node) blank).node ≡ node = elim at [
                  | inl z ↦ absurd (used z)
                  | inr e ↦ e
                ] in
                let unequal : (node == 0) ≡ false = ground arith in
                rw (here, unequal)
                  (open_again-Opened ops node proc read write excl t.files gs (find t.entries node)
                    sound lt nz here unlocked held (rw (same (find t.entries node)) small))
          ]

      choose :
          (o : Option (List Entry))
          → Roomy t.entries node o
          → Opened ops node proc read write excl t.entries t.files (elim o [
            | none ↦ returns none (record t { locked = false })
            | some gs ↦
                if (get_or gs (find t.entries node) blank).locked
                then waits
                else if (get_or gs (find t.entries node) blank).node == 0
                then open_first ops gs (find t.entries node) node proc read write excl t.files
                else open_again ops gs (find t.entries node) node proc read write excl t.files
          ])
      choose none r = kept ops node proc read write excl t.files t.entries t.files h
      choose (some gs) r =
          rw (get_or-IsEntry gs (find t.entries node) r.0).0
            (Opened-room node proc read write excl t.entries gs t.files _ r.2 (entered gs r))
