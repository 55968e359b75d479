-- ===== src/Helpers/Mutex.antt =====
-- helpers/mutex.c, with the tasks that use one mutex in any interleaving: a round of the loop of
-- `mutex_acquire` is one atomic step, between two of which the task yields to others. Any task can call
-- `mutex_release` at any time outside `mutex_acquire`, whether it holds the mutex or not.
pub mod Exclusion
mod Tests
use sysx.Base.{ℕ, ◌≡◌, ◌≢◌, Bool, true, false, if◌then◌else◌}
use sysx.Base.Memory.{update}

-- `atomic_flag_test_and_set_explicit`: the old value and the new one.
pub test_and_set : Bool → Bool × Bool
test_and_set locked = (locked, true)

-- Where a task is with respect to the mutex; `waiting` is inside `mutex_acquire`.
pub data Phase : Type 0 where
  idle waiting holding : Phase

pub record System : Type 0 where
  pub locked : Bool
  pub phase : ℕ → Phase

-- A call of `mutex_acquire` begins.
unfoldable pub call_acquire : ℕ → System → System
call_acquire i s = record s { phase = update s.phase i waiting }

-- A round of its loop: it ends if the mutex was free.
unfoldable pub try_acquire : ℕ → System → System
unfolding test_and_set
try_acquire i s =
    let (was, is) = test_and_set s.locked in
    record { locked = is; phase = if was then s.phase else update s.phase i holding }

-- `mutex_release`.
unfoldable pub release : ℕ → System → System
release i s = record { locked = false; phase = update s.phase i idle }

-- `mutex_test`.
pub test : System → Bool
test s = s.locked

-- One step of task `i`.
pub data Step : ℕ → System → System → Type 0 where
  begins : (i : ℕ) (s : System) → s.phase i ≡ idle → Step i s (call_acquire i s)
  tries : (i : ℕ) (s : System) → s.phase i ≡ waiting → Step i s (try_acquire i s)
  leaves : (i : ℕ) (s : System) → s.phase i ≢ waiting → Step i s (release i s)

-- Any number of steps, of any tasks.
pub data Run : System → System → Type 0 where
  stop : (s : System) → Run s s
  then_step : (s t u : System) (i : ℕ) → Run s t → Step i t u → Run s u

-- Whether a step, and each step of a run, releases the mutex only for the task that holds it.
pub IsOwn : (i : ℕ) (s t : System) → Step i s t → Type 0
IsOwn i s _ (begins _ _ at) = Unit {0}
IsOwn i s _ (tries _ _ at) = Unit {0}
IsOwn i s _ (leaves _ _ at) = s.phase i ≡ holding

unfoldable pub IsCareful : (s t : System) → Run s t → Type 0
unfolding IsOwn
IsCareful s _ (stop _) = Unit {0}
IsCareful s u (then_step _ t _ i run step) = IsCareful s t run × IsOwn i t u step

-- No task has called anything yet.
abbrev pub start : System
start = record { locked = false; phase = λ i. idle }
