-- ===== src/Hal/Devtree/Children.antt =====
-- The children of a node as a list.
use sysx.Base.{ℕ, ◌≡◌, ◌≢◌, subst, sym, ◌∙◌, true, false, List, [], ◌∷◌, arith, ◌==◌, if◌then◌else◌}
use sysx.Hal.Devtree.{Devices, add_child}

-- From `first` on the siblings are `cs`, each with the parent, and then null.
abbrev pub AreSiblings : Devices → ℕ → ℕ → List ℕ → Type 0
AreSiblings m parent first [] = first ≡ 0
AreSiblings m parent first (c ∷ cs) =
    (first ≡ c) × (c ≢ 0) × ((m c).parent ≡ parent) × AreSiblings m parent (m c).next_sibling cs

-- None of the nodes is this one.
abbrev pub Fresh : ℕ → List ℕ → Type 0
Fresh a [] = Unit {0}
Fresh a (x ∷ xs) = ((a == x) ≡ false) × Fresh a xs

next_sibling-add_child :
    (m : Devices) (parent child c : ℕ)
    → (parent == child) ≡ false
    → (add_child parent child m c).next_sibling
      ≡ (if child == c then (m parent).first_child else (m c).next_sibling)
unfolding add_child
next_sibling-add_child m parent child c apart = ground arith

add_child-AreSiblings_others :
    (m : Devices) (parent child p first : ℕ) (cs : List ℕ)
    → AreSiblings m p first cs
    → Fresh child cs
    → (parent == child) ≡ false
    → AreSiblings (add_child parent child m) p first cs
unfolding add_child
add_child-AreSiblings_others m parent child p first [] h fresh apart = h
add_child-AreSiblings_others m parent child p first (c ∷ cs) (e, nz, up, h) fresh apart = (
  e,
  nz,
  ground arith,
  subst (λ f. AreSiblings (add_child parent child m) p f cs)
      (sym (next_sibling-add_child m parent child c apart ∙ rw fresh.0))
      (add_child-AreSiblings_others m parent child p (m c).next_sibling cs h fresh.1 apart),
)

-- `devtree_add_child` puts a new node in front of the children of its parent, in each of which the
-- parent is entered afterwards as before.
pub add_child-AreSiblings :
    (m : Devices) (parent child : ℕ) (cs : List ℕ)
    → AreSiblings m parent (m parent).first_child cs
    → child ≢ 0
    → Fresh child (parent ∷ cs)
    → let r = add_child parent child m in AreSiblings r parent (r parent).first_child (child ∷ cs)
unfolding add_child
add_child-AreSiblings m parent child cs h nz (other, fresh) =
    let apart : (parent == child) ≡ false = ground arith in
    let self : (child == child) ≡ true = ground arith in
    (
      ground arith,
      nz,
      ground arith,
      subst (λ f. AreSiblings (add_child parent child m) parent f cs)
          (sym (next_sibling-add_child m parent child child apart ∙ rw self))
          (add_child-AreSiblings_others m parent child parent (m parent).first_child cs h fresh
            apart),
    )
