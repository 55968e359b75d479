-- ===== src/Exec/Task/Ring.antt =====
-- The task queue as a cyclic doubly linked list.
use sysx.Base.{ℕ, ◌≡◌, ◌∙◌, false, List, [], ◌∷◌, ◌++◌, ◌==◌, arith}
use sysx.Exec.Task.{Tasks}

-- From `a` the `next` pointers lead through `xs` to `z`, and the `prev` pointers lead back.
abbrev pub Linked : Tasks → ℕ → List ℕ → ℕ → Type 0
Linked m a [] z = ((m a).next ≡ z) × ((m z).prev ≡ a)
Linked m a (x ∷ xs) z = ((m a).next ≡ x) × ((m x).prev ≡ a) × Linked m x xs z

abbrev pub Fresh : ℕ → List ℕ → Type 0
Fresh a [] = Unit {0}
Fresh a (x ∷ xs) = ((a == x) ≡ false) × Fresh a xs

abbrev pub Distinct : List ℕ → Type 0
Distinct [] = Unit {0}
Distinct (x ∷ xs) = Fresh x xs × Distinct xs

-- The queue is `k`, then `xs`, then `k` again; no task stands in it twice.
abbrev pub IsRing : Tasks → ℕ → List ℕ → Type 0
IsRing m k xs = Linked m k xs k × Distinct (k ∷ xs)

-- `g` keeps the links of a chain that `m` has.
abbrev pub Keeps : Tasks → Tasks → ℕ → List ℕ → ℕ → Type 0
Keeps m g a [] z = ((g a).next ≡ (m a).next) × ((g z).prev ≡ (m z).prev)
Keeps m g a (x ∷ xs) z = ((g a).next ≡ (m a).next) × ((g x).prev ≡ (m x).prev) × Keeps m g x xs z

pub Linked-Keeps :
    (m g : Tasks) (a z : ℕ) (xs : List ℕ) → Linked m a xs z → Keeps m g a xs z → Linked g a xs z
Linked-Keeps m g a z [] l k = (k.0 ∙ l.0, k.1 ∙ l.1)
Linked-Keeps m g a z (x ∷ xs) l k = (k.0 ∙ l.0, k.1 ∙ l.1, Linked-Keeps m g x z xs l.2 k.2)

Linked-snoc :
    (m : Tasks) (a y z : ℕ) (xs : List ℕ)
    → Linked m a xs y
    → (m y).next ≡ z
    → (m z).prev ≡ y
    → Linked m a (xs ++ (y ∷ [])) z
Linked-snoc m a y z [] l n p = (l.0, l.1, (n, p))
Linked-snoc m a y z (x ∷ xs) l n p = (l.0, l.1, Linked-snoc m x y z xs l.2 n p)

Fresh-snoc : (a y : ℕ) (xs : List ℕ) → Fresh a xs → (a == y) ≡ false → Fresh a (xs ++ (y ∷ []))
Fresh-snoc a y [] f ne = (ne, tt)
Fresh-snoc a y (x ∷ xs) f ne = (f.0, Fresh-snoc a y xs f.1 ne)

Distinct-snoc : (y : ℕ) (xs : List ℕ) → Fresh y xs → Distinct xs → Distinct (xs ++ (y ∷ []))
Distinct-snoc y [] f d = (tt, tt)
Distinct-snoc y (x ∷ xs) f d = (Fresh-snoc x y xs d.0 (ground arith), Distinct-snoc y xs f.1 d.1)

-- Any task of the queue can be taken for its head.
pub IsRing-rotate :
    (m : Tasks) (k x : ℕ) (xs : List ℕ) → IsRing m k (x ∷ xs) → IsRing m x (xs ++ (k ∷ []))
IsRing-rotate m k x xs ((n, p, l), (f, d)) = (
  Linked-snoc m x k x xs l n p,
  (Fresh-snoc x k xs d.0 (ground arith), Distinct-snoc k xs f.1 d.1),
)
