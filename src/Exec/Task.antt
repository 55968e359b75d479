-- ===== src/Exec/Task.antt =====
-- exec/task.c, the task queue and the scheduler. The parts of a task structure that it reads and
-- writes are those of `task_common_t`; a task is known by its address.
pub mod Ring
pub mod Insert
pub mod Unlink
pub mod Select
pub mod Yield
mod Tests
use sysx.Base.{
  ℕ, zero, suc, ◌+◌, ◌-◌, Bool, true, false, ◌||◌, Option, none, some, ltb, ◌==◌, ◌!=◌,
  if◌then◌else◌, add_size, sub_size,
}
use sysx.Base.Memory.{update}

-- `TASK_TYPE_KERNEL` and so on
pub data TaskType : Type 0 where
  kernel user user_sys delete_pending : TaskType

pub record TaskCommon : Type 0 where
  pub type : TaskType
  pub ready : Bool
  pub pid : ℕ
  pub stack_bottom : ℕ
  pub stack_size : ℕ
  pub t_switch : ℕ
  pub prev : ℕ
  pub next : ℕ

abbrev pub Tasks : Type 0
Tasks = ℕ → TaskCommon

-- The variables of task.c and `timer_tick`; 0 is the null pointer. `timer_tick_t` is `size_t`.
pub record Sched : Type 0 where
  pub tasks : Tasks
  pub task_kernel : ℕ
  pub task_current : ℕ
  pub yield_block_cnt : ℕ
  pub yield_tick : ℕ
  pub timer_tick : ℕ

abbrev pub set_prev : ℕ → ℕ → Tasks → Tasks
set_prev t p m = update m t (record (m t) { prev = p })

abbrev pub set_next : ℕ → ℕ → Tasks → Tasks
set_next t n m = update m t (record (m t) { next = n })

pub set_ready : ℕ → Bool → Sched → Sched
set_ready t ready s = record s { tasks = update s.tasks t (record (s.tasks t) { ready = ready }) }

pub get_ready : ℕ → Sched → Bool
get_ready t s = (s.tasks t).ready

pub yield_block : Sched → Sched
yield_block s = record s { yield_block_cnt = add_size s.yield_block_cnt 1 }

pub yield_unblock : Sched → Sched
yield_unblock s =
    if ltb 0 s.yield_block_cnt then record s { yield_block_cnt = s.yield_block_cnt - 1 } else s

-- The four writes of `task_insert`, in its order.
pub link : ℕ → ℕ → Tasks → Tasks
link task target m0 =
    let m1 = set_prev task target m0 in
    let m2 = set_next task (m1 target).next m1 in
    let m3 = set_prev (m2 task).next task m2 in set_next target task m3

pub insert : ℕ → ℕ → Sched → Sched
insert task target s =
    let s1 = yield_block s in yield_unblock (record s1 { tasks = link task target s1.tasks })

-- The two writes of `task_do_delete` that take a task out of the queue.
pub unlink : ℕ → Tasks → Tasks
unlink task m0 =
    let m1 = set_next (m0 task).prev (m0 task).next m0 in set_prev (m1 task).next (m1 task).prev m1

pub get_pid : ℕ → Sched → ℕ
get_pid t s = (s.tasks t).pid

-- `task_delete`; where the task is deleted right away, the queue's part of that.
pub delete : ℕ → Sched → Sched
unfolding unlink
delete task s =
    if s.task_current == task
    then record s { tasks = update s.tasks task (record (s.tasks task) { type = delete_pending }) }
    else record s { tasks = unlink task s.tasks }

-- A task and the longest wait so far.
pub record Choice : Type 0 where
  pub task : ℕ
  pub tdelta_max : ℕ

-- How long ago the task was last switched to.
abbrev pub wait : Sched → ℕ → ℕ
wait s t = sub_size s.timer_tick (s.tasks t).t_switch

-- One round of the selection loop of `task_yield`.
pub consider : Sched → ℕ → Choice → Choice
consider s t best =
    if (s.tasks t).ready
    then (if ltb best.tdelta_max (wait s t)
        then record { task = t; tdelta_max = wait s t }
        else best)
    else best

-- The selection loop, from the task behind `t` round to the current one. `none`: out of fuel.
pub select : ℕ → Sched → ℕ → Choice → Option ℕ
select zero s t best = none
select (suc fuel) s t best =
    let t' = (s.tasks t).next in
    let rest = select fuel s t' (consider s t' best) in
    if t' == s.task_current then some best.task else rest

-- What a call of `task_yield` comes to: it returns, or it switches to a task and does not return.
pub data Outcome : Type 0 where
  stay : Outcome
  switch : ℕ → Outcome
  out_of_fuel : Outcome

-- `task_yield_tick = task_common(task)->t_switch = timer_tick; task_switch(task, context);`, where
-- `task_switch` makes the task the current one.
pub switch_to : ℕ → Sched → Outcome × Sched
switch_to t s = (
  switch t,
  record s {
    tasks = update s.tasks t (record (s.tasks t) { t_switch = s.timer_tick });
    yield_tick = s.timer_tick;
    task_current = t;
  },
)

-- The queue's part of deleting the current task, and `task_current = NULL`.
pub drop_pending : Sched → Sched
drop_pending s = elim (s.tasks s.task_current).type [
  | delete_pending ↦ record s { tasks = unlink s.task_current s.tasks; task_current = 0 }
  | _ ↦ s
]

pub yield : ℕ → Sched → Outcome × Sched
yield fuel s =
    if s.task_kernel == 0 || s.yield_block_cnt != 0
    then (stay, s)
    else if s.task_current == 0
    then (if (s.tasks s.task_kernel).ready then switch_to s.task_kernel s else (stay, s))
    else (elim (select fuel s s.task_current (record { task = s.task_current; tdelta_max = 0 })) [
      | none ↦ (out_of_fuel, s)
      | some t ↦ if t == s.task_current then (stay, s) else switch_to t (drop_pending s)
    ])
