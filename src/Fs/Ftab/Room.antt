-- ===== src/Fs/Ftab/Room.antt =====
-- Well-formed tables, and the entry that `ftab_open` settles on, with room made for it.
use sysx.Base.{
  ℕ, zero, suc, ◌+◌, ◌<◌, ◌≡◌, ◌≢◌, ◌⊎◌, inl, inr, ap, refl, Bool, true, false, ◌||◌, Option, none,
  some, List, [], ◌∷◌, ◌++◌, arith, ◌==◌, if◌then◌else◌, length, get_or, set, replicate,
  length-append, Bool-cases, ==_iff, All,
}
use sysx.Fs.Ftab.{Entry, blank, refs_mod, find, make_room}

-- An entry that no one works on: blank, or with a node and a count of its holders.
abbrev pub IsEntry : Entry → Type 0
IsEntry e = (e.locked ≡ false) × ((e ≡ blank) ⊎ ((e.node ≢ 0) × (0 < e.refs) × (e.refs < refs_mod)))

abbrev pub IsSound : List Entry → Type 0
IsSound es = All IsEntry es

blank-IsEntry : IsEntry blank
blank-IsEntry = (refl, inl refl)

pub set-IsSound :
    (es : List Entry) (i : ℕ) (e : Entry) → IsSound es → IsEntry e → IsSound (set es i e)
set-IsSound [] i e h g = tt
set-IsSound (x ∷ xs) zero e h g = (g, h.1)
set-IsSound (x ∷ xs) (suc i) e h g = (h.0, set-IsSound xs i e h.1 g)

pub get_or-IsEntry : (es : List Entry) (i : ℕ) → IsSound es → IsEntry (get_or es i blank)
get_or-IsEntry [] i h = blank-IsEntry
get_or-IsEntry (x ∷ xs) zero h = h.0
get_or-IsEntry (x ∷ xs) (suc i) h = get_or-IsEntry xs i h.1

append-IsSound : (es gs : List Entry) → IsSound es → IsSound gs → IsSound (es ++ gs)
append-IsSound [] gs h g = g
append-IsSound (e ∷ es) gs h g = (h.0, append-IsSound es gs h.1 g)

-- The index that was found is one of the table with room, and its entry is free or has the node.
abbrev pub Found : List Entry → ℕ → ℕ → Type 0
Found es idx node =
    (idx < length es) × (((get_or es idx blank).node ≡ 0) ⊎ ((get_or es idx blank).node ≡ node))

find_cases :
    (es : List Entry) (node : ℕ)
    → Found es (find es node) node
      ⊎ ((find es node ≡ length es)
          × (get_or (es ++ replicate 4 blank) (find es node) blank ≡ blank))
unfolding find
find_cases [] node = inr (refl, refl)
find_cases (e ∷ es) node = elim (Bool-cases (e.node == 0 || e.node == node)) [
  | inl here ↦ rw here (
      inl (
        omega arith,
        elim (Bool-cases (e.node == 0)) [
          | inl z ↦ inl ((==_iff _ _).0 z)
          | inr nz ↦ inr (ground arith)
        ],
      ))
  | inr there ↦ rw there (next (find_cases es node))
]
  where
    next :
        Found es (find es node) node
          ⊎ ((find es node ≡ length es)
              × (get_or (es ++ replicate 4 blank) (find es node) blank ≡ blank))
        → Found (e ∷ es) (find es node + 1) node
          ⊎ ((find es node + 1 ≡ suc (length es))
              × (get_or (e ∷ es ++ replicate 4 blank) (find es node + 1) blank ≡ blank))
    next (inl f) =
        let s : find es node + 1 ≡ suc (find es node) = omega arith in
        rw s (inl (omega (arith, f.0), f.1))
    next (inr (k, b)) =
        let s : find es node + 1 ≡ suc (find es node) = omega arith in
        rw s (inr (omega (arith, k), b))

get_or-blank :
    (es : List Entry) (j : ℕ) → get_or (es ++ replicate 4 blank) j blank ≡ get_or es j blank
get_or-blank [] zero = refl
get_or-blank [] (suc zero) = refl
get_or-blank [] (suc (suc zero)) = refl
get_or-blank [] (suc (suc (suc zero))) = refl
get_or-blank [] (suc (suc (suc (suc j)))) = refl
get_or-blank (e ∷ es) zero = refl
get_or-blank (e ∷ es) (suc j) = get_or-blank es j

abbrev pub Roomy : List Entry → ℕ → Option (List Entry) → Type 0
Roomy es node none = Unit {0}
Roomy es node (some gs) =
    IsSound gs × Found gs (find es node) node × ((j : ℕ) → get_or gs j blank ≡ get_or es j blank)

pub make_room-Roomy :
    (allocated : Bool) (es : List Entry) (node : ℕ)
    → IsSound es
    → Roomy es node (make_room allocated es (find es node))
unfolding make_room
make_room-Roomy allocated es node h = elim (find_cases es node) [
  | inl found ↦
      let inside : (find es node == length es) ≡ false = ground (arith, found.0) in
      rw inside (h, found, λ j. refl)
  | inr (end, b) ↦
      let outside : (find es node == length es) ≡ true = ground (arith, end) in
      rw outside (grown allocated end b)
]
  where
    grown :
        (allocated : Bool)
        → find es node ≡ length es
        → get_or (es ++ replicate 4 blank) (find es node) blank ≡ blank
        → Roomy es node (if allocated then some (es ++ replicate 4 blank) else none)
    grown false end b = tt
    grown true end b = (
      append-IsSound es _ h (blank-IsEntry, (blank-IsEntry, (blank-IsEntry, (blank-IsEntry, tt)))),
      (
        omega (arith, end, length-append es (replicate 4 blank)),
        inl (ap (λ (e : Entry). e.node) b),
      ),
      λ j. get_or-blank es j,
    )
