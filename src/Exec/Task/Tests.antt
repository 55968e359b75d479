-- ===== src/Exec/Task/Tests.antt =====
-- A queue of three tasks, and the theorems at it.
use sysx.Base.{ℕ, ◌≡◌, refl, true, [], ◌∷◌, ◌==◌, if◌then◌else◌, arith}
use sysx.Exec.Task.{
  TaskType, TaskCommon, Tasks, Sched, switch, user, kernel, consider, select, insert, yield,
  switch_to, drop_pending,
}
use sysx.Exec.Task.Ring.{IsRing}
use sysx.Exec.Task.Insert.{insert-IsRing}
use sysx.Exec.Task.Yield.{Yields, yield-Yields}

abbrev task_at : TaskType → ℕ → ℕ → ℕ → TaskCommon
task_at type t_switch prev next = record {
  type = type;
  ready = true;
  pid = 1;
  stack_bottom = 0;
  stack_size = 0;
  t_switch = t_switch;
  prev = prev;
  next = next;
}

-- 1, then 2, then 3; task 2 waits since 40 and task 3 since 10.
abbrev three : TaskType → Tasks
three type t =
    if t == 1
    then task_at type 50 3 2
    else if t == 2
    then task_at user 40 1 3
    else task_at user 10 2 1

abbrev busy : TaskType → Sched
busy type = record {
  tasks = three type;
  task_kernel = 1;
  task_current = 1;
  yield_block_cnt = 0;
  yield_tick = 50;
  timer_tick = 60;
}

busy-IsRing : (type : TaskType) → IsRing (three type) 1 (2 ∷ 3 ∷ [])
busy-IsRing type =
    ((refl, refl, (refl, refl, (refl, refl))), ((refl, (refl, tt)), ((refl, tt), (tt, tt))))

yield-busy : (yield 3 (busy kernel)).0 ≡ switch 3
unfolding yield select consider switch_to drop_pending
yield-busy = refl

insert-IsRing_example :
    IsRing (insert 4 1 (busy kernel)).tasks 1 (4 ∷ 2 ∷ 3 ∷ [])
    × ((insert 4 1 (busy kernel)).yield_block_cnt ≡ 0)
insert-IsRing_example =
    insert-IsRing (busy kernel) 4 1 (2 ∷ 3 ∷ []) (omega arith) (busy-IsRing kernel)
      (refl, (refl, (refl, tt)))

yield-Yields_example : Yields (busy kernel) (2 ∷ 3 ∷ []) (yield 3 (busy kernel))
yield-Yields_example =
    yield-Yields 3 (busy kernel) (2 ∷ 3 ∷ []) (omega arith) (omega arith) refl (busy-IsRing kernel)
      (omega arith)
