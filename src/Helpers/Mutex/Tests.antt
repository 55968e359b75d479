-- ===== src/Helpers/Mutex/Tests.antt =====
-- Task 1 holds the mutex and task 2 waits for it, and the theorems at this state.
use sysx.Base.{ℕ, ◌≡◌, ◌↔◌, refl, true}
use sysx.Helpers.Mutex.{
  System, holding, call_acquire, try_acquire, test_and_set, test, start, begins, tries, Run, stop,
  then_step, IsOwn, IsCareful,
}
use sysx.Helpers.Mutex.Exclusion.{Run-exclusion}

abbrev first : System
first = call_acquire 1 start

abbrev second : System
second = try_acquire 1 first

abbrev third : System
third = call_acquire 2 second

third-reached : (run : Run start third) × IsCareful start third run
unfolding call_acquire try_acquire test_and_set IsCareful IsOwn
third-reached = (
  then_step start second third 2
      (then_step start first second 1
        (then_step start start first 1 (stop start) (begins 1 start refl)) (tries 1 first refl))
      (begins 2 second refl),
  (((tt, tt), tt), tt),
)

Run-exclusion_example :
    ((i j : ℕ) → third.phase i ≡ holding → third.phase j ≡ holding → i ≡ j)
    × ((test third ≡ true) ↔ ((i : ℕ) × (third.phase i ≡ holding)))
Run-exclusion_example = Run-exclusion third third-reached.0 third-reached.1
