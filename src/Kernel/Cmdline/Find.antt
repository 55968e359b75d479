-- ===== src/Kernel/Cmdline/Find.antt =====
-- What the two searches find.
use sysx.Base.{
  ℕ, ◌≡◌, ◌≢◌, inl, inr, ◌∙◌, ap, ap₂, refl, none, some, List, [], ◌∷◌, ◌++◌, arith, ◌==◌, ==_iff,
  Bool-cases, Option-cases, Any, All,
}
use sysx.Kernel.Cmdline.{value_behind, find_kvp}

value_behind_sound : (a key v : List ℕ) → value_behind a key ≡ some v → a ≡ key ++ (b'=' ∷ v)
unfolding value_behind
value_behind_sound [] [] v h = cc
value_behind_sound (c ∷ cs) [] v h = elim (Bool-cases (c == b'=')) [
  | inl eq ↦ let h' = rw eq at h in let c' = (==_iff _ _).0 eq in cc
  | inr ne ↦ let h' = rw ne at h in cc
]
value_behind_sound [] (d ∷ ds) v h = cc
value_behind_sound (c ∷ cs) (d ∷ ds) v h = elim (Bool-cases (c == d)) [
  | inl eq ↦
      let h' = rw (eq, value_behind) at h in
      ap₂ (λ x xs. x ∷ xs) ((==_iff _ _).0 eq) (value_behind_sound cs ds v h')
  | inr ne ↦ let h' = rw (ne, value_behind) at h in cc
]

value_behind_complete : (key v : List ℕ) → value_behind (key ++ (b'=' ∷ v)) key ≡ some v
unfolding value_behind
value_behind_complete [] v = refl
value_behind_complete (d ∷ ds) v = ground (arith, value_behind_complete ds v)

-- `cmdline_find_kvp` finds a value exactly if some word is the key, an equals sign and text, and the
-- value is the text of such a word.
pub find_kvp_iff :
    (argv : List (List ℕ)) (key : List ℕ)
    → ((v : List ℕ) → find_kvp argv key ≡ some v → Any (λ a. a ≡ key ++ (b'=' ∷ v)) argv)
      × (find_kvp argv key ≡ none → (v : List ℕ) → All (λ a. a ≢ key ++ (b'=' ∷ v)) argv)
unfolding find_kvp
find_kvp_iff [] key = (λ v h. cc, λ h v. tt)
find_kvp_iff (a ∷ argv) key = elim (Option-cases (value_behind a key)) [
  | inr (w, found) ↦ (
    λ v h.
        let h' = rw (found, find_kvp) at h in
        let same : w ≡ v = cc in inl (value_behind_sound a key v (found ∙ h')),
    λ h v. let h' = rw (found, find_kvp) at h in cc,
  )
  | inl missing ↦ (
    λ v h. let h' = rw (missing, find_kvp) at h in inr ((find_kvp_iff argv key).0 v h'),
    λ h v.
        let h' = rw (missing, find_kvp) at h in (other v missing, (find_kvp_iff argv key).1 h' v),
  )
]
  where
    other : (v : List ℕ) → value_behind a key ≡ none → a ≢ key ++ (b'=' ∷ v)
    other v missing e =
        let found : value_behind a key ≡ some v =
          ap (λ x. value_behind x key) e ∙ value_behind_complete key v in
        cc
