-- ===== src/Exec/Task/Unlink.antt =====
-- The part of `task_do_delete` that takes a task out of the queue.
use sysx.Base.{ℕ, ◌≡◌, false, List, [], ◌∷◌, ◌==◌, arith}
use sysx.Exec.Task.{Tasks, unlink}
use sysx.Exec.Task.Ring.{Linked, Fresh, Distinct, IsRing}

-- The task before `z` is one of the chain that leads to `z`.
prev-ne :
    (m : Tasks) (a y z : ℕ) (ys : List ℕ)
    → Linked m y ys z
    → Fresh a (y ∷ ys)
    → (a == (m z).prev) ≡ false
prev-ne m a y z [] l f = ground arith
prev-ne m a y z (x ∷ xs) l f = prev-ne m a x z xs l.2 f.1

module _ (m : Tasks) (task n : ℕ) (next : (m task).next ≡ n) where
  unlink-Linked :
      (a : ℕ) (xs : List ℕ)
      → Linked m a xs task
      → Fresh task (a ∷ xs)
      → Distinct (a ∷ xs)
      → Fresh n xs
      → Linked (unlink task m) a xs n
  unfolding unlink
  unlink-Linked a [] l f d g = (ground arith, ground arith)
  unlink-Linked a (x ∷ xs) l f d g = (
    ground (arith, prev-ne m a x task xs l.2 d.0),
    ground arith,
    unlink-Linked x xs l.2 f.1 d.1 g.1,
  )

-- Taking the head out of the queue leaves the rest of it, linked in the same order.
pub unlink-IsRing :
    (m : Tasks) (task n : ℕ) (xs : List ℕ) → IsRing m task (n ∷ xs) → IsRing (unlink task m) n xs
unlink-IsRing m task n xs ((next, _, l), (f, d)) = (unlink-Linked m task n next n xs l f d d.0, d)
