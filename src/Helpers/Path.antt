-- ===== src/Helpers/Path.antt =====
-- helpers/path.c: one element of a path at a time, against the elements between the slashes.
mod Tests
use native.Mathlib.Numerals.{add-one}
use sysx.Base.{
  ℕ, zero, suc, ◌+◌, ◌≤◌, ◌<◌, ◌≡◌, ◌∙◌, ap, refl, Bool, Bool-cases, inl, inr, List, [], ◌∷◌, arith,
  ◌==◌, if◌then◌else◌, length, take,
}

-- The value of `*len` and the returned pointer. The end of the list stands for the NUL.
unfoldable pub path_traverse : List ℕ → ℕ × List ℕ
path_traverse [] = (0, [])
path_traverse (c ∷ cs) =
    let (len, rest) = path_traverse cs in if c == b'/' then (0, cs) else (len + 1, rest)

-- The path elements: the text between slashes, the empty ones too; none after the last slash.
abbrev add_char : ℕ → List (List ℕ) → List (List ℕ)
add_char c [] = (c ∷ []) ∷ []
add_char c (e ∷ es) = (c ∷ e) ∷ es

unfoldable pub elements : List ℕ → List (List ℕ)
elements [] = []
elements (c ∷ cs) = if c == b'/' then [] ∷ elements cs else add_char c (elements cs)

-- `path_traverse` splits off the first element: it returns its length and the path behind it.
pub elements-path_traverse :
    (c : ℕ) (cs : List ℕ)
    → let (len, rest) = path_traverse (c ∷ cs) in
      elements (c ∷ cs) ≡ take len (c ∷ cs) ∷ elements rest
unfolding path_traverse elements
elements-path_traverse c [] = elim (Bool-cases (c == b'/')) [ inl e ↦ rw e | inr e ↦ rw e ]
elements-path_traverse c (d ∷ ds) = elim (Bool-cases (c == b'/')) [
  | inl e ↦ rw e
  | inr e ↦ rw (e, add-one) (ap (add_char c) (elements-path_traverse d ds))
]

-- The path behind the element is shorter.
pub length-path_traverse : (c : ℕ) (cs : List ℕ) → length (path_traverse (c ∷ cs)).1 ≤ length cs
unfolding path_traverse
length-path_traverse c [] = elim (Bool-cases (c == b'/')) [
  | inl e ↦ rw e (omega arith)
  | inr e ↦ rw e (omega arith)
]
length-path_traverse c (d ∷ ds) = elim (Bool-cases (c == b'/')) [
  | inl e ↦ rw e (omega arith)
  | inr e ↦ rw e (omega (arith, length-path_traverse d ds))
]

-- The element lies within the path.
pub len-path_traverse-le : (cs : List ℕ) → (path_traverse cs).0 ≤ length cs
unfolding path_traverse
len-path_traverse-le [] = omega arith
len-path_traverse-le (c ∷ cs) = ground (arith, len-path_traverse-le cs)
