-- ===== src/Helpers/Mutex/Exclusion.antt =====
-- At most one task holds the mutex, and a task that waits can get it.
use sysx.Base.{
  ℕ, ◌≡◌, ◌≢◌, ◌↔◌, refl, ◌∙◌, sym, ◌⊎◌, inl, inr, true, false, arith, Bool-cases, ℕ_discrete,
}
use sysx.Base.Memory.{update}
use sysx.Helpers.Mutex.{
  idle, waiting, holding, System, call_acquire, try_acquire, release, test, Step, begins, tries,
  leaves, IsOwn, IsCareful, test_and_set, Run, stop, then_step, start,
}

-- The mutex is locked if a task holds it, and no two do; if it is locked, some task holds it.
abbrev pub IsSafe : System → Type 0
IsSafe s =
    ((i : ℕ) → s.phase i ≡ holding → s.locked ≡ true)
    × ((i j : ℕ) → s.phase i ≡ holding → s.phase j ≡ holding → i ≡ j)
    × (s.locked ≡ true → (i : ℕ) × (s.phase i ≡ holding))

IsSafe-call_acquire : (i : ℕ) (s : System) → s.phase i ≡ idle → IsSafe s → IsSafe (call_acquire i s)
unfolding call_acquire
IsSafe-call_acquire i s at (held, one, held') = (
  λ j h. held j (ground arith),
  λ j k h h'. one j k (ground arith) (ground arith),
  λ l. let (k, e) = held' l in (k, ground arith),
)

IsSafe-try_acquire :
    (i : ℕ) (s : System) → s.phase i ≡ waiting → IsSafe s → IsSafe (try_acquire i s)
unfolding try_acquire
IsSafe-try_acquire i s at (held, one, held') = elim (Bool-cases s.locked) [
  | inl taken ↦ rw taken (λ j h. refl, one, λ l. held' taken)
  | inr free ↦
      rw free
        (λ j h. refl, λ j k h h'. sym (only j h free) ∙ only k h' free, λ l. (i, ground arith))
]
  where
    only : (j : ℕ) → update s.phase i holding j ≡ holding → s.locked ≡ false → i ≡ j
    only j h free = elim (ℕ_discrete i j) [
      | yes same ↦ same
      | no other ↦
          let before : s.phase j ≡ holding = ground arith in
          let taken = held j before in absurd (ground arith)
    ]

IsSafe-release : (i : ℕ) (s : System) → s.phase i ≡ holding → IsSafe s → IsSafe (release i s)
unfolding release
IsSafe-release i s at (held, one, held') = (
  λ j h.
      let before : s.phase j ≡ holding = ground arith in
      let same = one i j at before in absurd (ground arith),
  λ j k h h'. one j k (ground arith) (ground arith),
  λ l. absurd (ground arith),
)

Step-IsSafe : (i : ℕ) (s t : System) (step : Step i s t) → IsOwn i s t step → IsSafe s → IsSafe t
unfolding IsOwn
Step-IsSafe i s _ (begins _ _ at) own safe = IsSafe-call_acquire i s at safe
Step-IsSafe i s _ (tries _ _ at) own safe = IsSafe-try_acquire i s at safe
Step-IsSafe i s _ (leaves _ _ at) own safe = IsSafe-release i s own safe

Run-IsSafe : (s t : System) (run : Run s t) → IsCareful s t run → IsSafe s → IsSafe t
unfolding IsCareful
Run-IsSafe s _ (stop _) careful safe = safe
Run-IsSafe s u (then_step _ t _ i run step) (before, own) safe =
    Step-IsSafe i t u step own (Run-IsSafe s t run before safe)

start-IsSafe : IsSafe start
start-IsSafe = (λ i h. ground arith, λ i j h h'. absurd (ground arith), λ l. absurd (ground arith))

-- In whatever order the tasks run, if none releases a mutex that it does not hold, no two hold the mutex
-- at a time, and it is locked exactly while some task holds it.
pub Run-exclusion :
    (s : System) (run : Run start s)
    → IsCareful start s run
    → ((i j : ℕ) → s.phase i ≡ holding → s.phase j ≡ holding → i ≡ j)
      × ((test s ≡ true) ↔ ((i : ℕ) × (s.phase i ≡ holding)))
unfolding test
Run-exclusion s run careful =
    let (held, one, held') = Run-IsSafe start s run careful start-IsSafe in
    (one, (held', λ h. held h.0 h.1))

-- From every state that the tasks reach so, a task that waits in `mutex_acquire` has a way to the mutex of
-- at most two further steps: one of the task that holds it, if any does, and one of its own.
pub Run-progress :
    (s : System) (i : ℕ) (run : Run start s)
    → IsCareful start s run
    → s.phase i ≡ waiting
    → (t : System) × ((Step i s t) ⊎ ((j : ℕ) × (m : System) × Step j s m × Step i m t))
      × (t.phase i ≡ holding)
unfolding try_acquire release
Run-progress s i run careful at =
    let (held, one, held') = Run-IsSafe start s run careful start-IsSafe in
    elim (Bool-cases s.locked) [
      | inr free ↦ (try_acquire i s, inl (tries i s at), ground arith)
      | inl taken ↦
          let (j, h) = held' taken in
          let busy : s.phase j ≢ waiting = ground (arith, h) in
          (
            try_acquire i (release j s),
            inr (j, release j s, leaves j s busy, tries i (release j s) (ground arith)),
            ground arith,
          )
    ]

-- A second release, by a task that holds the mutex no more, lets two tasks in.
unsafe : (s : System) × Run start s × (s.phase 1 ≡ holding) × (s.phase 2 ≡ holding)
unfolding call_acquire try_acquire release test_and_set
unsafe =
    let a = try_acquire 1 (call_acquire 1 start) in
    let b = release 3 a in
    let c = try_acquire 2 (call_acquire 2 b) in
    (
      c,
      then_step _ _ _ 2
          (then_step _ _ _ 2
            (then_step _ _ _ 3
              (then_step _ _ _ 1 (then_step _ _ _ 1 (stop start) (begins 1 start refl))
                (tries 1 _ refl))
              (leaves 3 a (λ e. absurd (ground (arith, e)))))
            (begins 2 b refl))
          (tries 2 _ refl),
      refl,
      refl,
    )
