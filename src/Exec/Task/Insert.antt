-- ===== src/Exec/Task/Insert.antt =====
-- `task_insert`
use sysx.Base.{ℕ, ◌<◌, ◌≡◌, sym, false, List, [], ◌∷◌, ◌==◌, arith, size_max}
use sysx.Exec.Task.{Tasks, Sched, link, insert, yield_block, yield_unblock}
use sysx.Exec.Task.Ring.{Linked, Linked-Keeps, Fresh, IsRing, Keeps}

-- The links of `task_insert` leave a chain alone that lies outside the target and the new task and
-- has none of its `prev` pointers at the target's successor.
link-Keeps :
    (m : Tasks) (task target n a : ℕ) (xs : List ℕ)
    → n ≡ (m target).next
    → (a == task) ≡ false
    → (a == target) ≡ false
    → Fresh target xs
    → Fresh task xs
    → Fresh n xs
    → (task == target) ≡ false
    → (n == target) ≡ false
    → Keeps m (link task target m) a xs target
unfolding link
link-Keeps m task target n a [] e h1 h2 h3 h4 h5 h6 h7 = (ground arith, ground arith)
link-Keeps m task target n a (x ∷ xs) e h1 h2 h3 h4 h5 h6 h7 = (
  ground arith,
  ground arith,
  link-Keeps m task target n x xs e (ground arith) (ground arith) h3.1 h4.1 h5.1 h6 h7,
)

link-IsRing :
    (m : Tasks) (task k : ℕ) (xs : List ℕ)
    → IsRing m k xs
    → Fresh task (k ∷ xs)
    → IsRing (link task k m) k (task ∷ xs)
unfolding link
link-IsRing m task k [] (l, d) fresh =
    ((ground arith, ground arith, (ground arith, ground arith)), ((ground arith, tt), (tt, tt)))
link-IsRing m task k (x ∷ xs) (l, d) fresh = (
  (ground arith, ground arith, (ground arith, ground arith, rest)),
  ((ground arith, d.0), (fresh.1, d.1)),
)
  where
    rest : Linked (link task k m) x xs k
    rest = Linked-Keeps m (link task k m) x k xs l.2 (
        link-Keeps m task k x x xs (sym l.0) (ground arith) (ground arith) d.0.1 fresh.1.1 d.1.0
          (ground arith) (ground arith))

-- With a count of yield blocks that does not overflow, `task_insert` puts a task that is not in the
-- queue right behind its target, leaves the rest of the cyclic doubly linked queue as it is, and
-- restores the count.
pub insert-IsRing :
    (s : Sched) (task k : ℕ) (xs : List ℕ)
    → s.yield_block_cnt < size_max
    → IsRing s.tasks k xs
    → Fresh task (k ∷ xs)
    → IsRing (insert task k s).tasks k (task ∷ xs)
      × ((insert task k s).yield_block_cnt ≡ s.yield_block_cnt)
unfolding insert yield_block yield_unblock
insert-IsRing s task k xs small ring fresh =
    (ground (arith, link-IsRing s.tasks task k xs ring fresh), ground arith)
