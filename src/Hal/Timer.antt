-- ===== src/Hal/Timer.antt =====
-- hal/timer.c: what a tick of the timer does to the scheduler. The frame buffer that it may commit is
-- not part of the model, and `task_quantum` stands for the constant of that name.
use sysx.Base.{ℕ, ◌&&◌, ◌||◌, ◌==◌, ◌!=◌, leb, if◌then◌else◌, add_size, sub_size}
use sysx.Exec.Task.{Sched, Outcome, stay, yield}

-- `timer_handler`
pub handler : ℕ → ℕ → ℕ → Sched → Outcome × Sched
handler task_quantum fuel delta s =
    let s' = record s { timer_tick = add_size s.timer_tick delta } in
    if s'.task_kernel != 0
      && (s'.task_current == 0 || leb task_quantum (sub_size s'.timer_tick s'.yield_tick))
    then yield fuel s'
    else (stay, s')
