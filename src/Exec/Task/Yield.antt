-- ===== src/Exec/Task/Yield.antt =====
-- `task_yield`: which task it switches to, and that the queue stays a cyclic list.
use sysx.Base.{
  ℕ, ◌<◌, ◌≡◌, ◌≢◌, refl, sym, subst, ◌⊎◌, inl, inr, false, some, List, [], ◌∷◌, ◌==◌, arith,
  if◌then◌else◌, length, Any,
}
use sysx.Exec.Task.{
  Tasks, TaskType, kernel, user, user_sys, switch, delete_pending, Sched, Outcome, stay, select,
  switch_to, drop_pending, yield, unlink,
}
use sysx.Exec.Task.Ring.{Fresh, IsRing}
use sysx.Exec.Task.Select.{IsReadyFor, NoneLonger, Picks, select-Picks}

-- A task picked from a list is not one that the list leaves out.
ne_of_Any :
    (s : Sched) (a d t : ℕ) (xs : List ℕ)
    → Fresh a xs
    → Any (λ u. (u ≡ t) × IsReadyFor s d u) xs
    → (t == a) ≡ false
ne_of_Any s a d t [] f h = elim h [ ]
ne_of_Any s a d t (x ∷ xs) f (inl (e, _)) = ground arith
ne_of_Any s a d t (x ∷ xs) f (inr h) = ne_of_Any s a d t xs f.1 h

-- What a call comes to: no other ready task has waited and nothing changes, or the processor goes to
-- a ready task of `xs` that has waited, none of which has waited longer.
abbrev pub Chooses : Sched → List ℕ → Outcome × Sched → Type 0
Chooses s xs r =
    ((r ≡ (stay, s)) × NoneLonger s 0 xs)
    ⊎ ((t : ℕ) × (d : ℕ) × (r ≡ switch_to t (drop_pending s))
        × (0 < d)
        × Any (λ u. (u ≡ t) × IsReadyFor s d u) xs
        × NoneLonger s d xs)

yield-select :
    (fuel : ℕ) (s : Sched) (t : ℕ)
    → s.task_kernel ≢ 0
    → s.task_current ≢ 0
    → s.yield_block_cnt ≡ 0
    → select fuel s s.task_current (record { task = s.task_current; tdelta_max = 0 }) ≡ some t
    → yield fuel s ≡ (if t == s.task_current then (stay, s) else switch_to t (drop_pending s))
unfolding yield
yield-select fuel s t real current unblocked e = ground arith

Picks-Chooses :
    (s : Sched) (xs : List ℕ) (t : ℕ)
    → Fresh s.task_current xs
    → Picks s xs t
    → Chooses s xs (if t == s.task_current then (stay, s) else switch_to t (drop_pending s))
Picks-Chooses s xs t f (inl (e, idle)) = inl (ground arith, idle)
Picks-Chooses s xs t f (inr (d, pos, picked, longest)) =
    let other : (t == s.task_current) ≡ false = ne_of_Any s s.task_current d t xs f picked in
    inr (t, d, rw other, pos, picked, longest)

yield-Chooses :
    (fuel : ℕ) (s : Sched) (xs : List ℕ)
    → s.task_kernel ≢ 0
    → s.task_current ≢ 0
    → s.yield_block_cnt ≡ 0
    → IsRing s.tasks s.task_current xs
    → length xs < fuel
    → Chooses s xs (yield fuel s)
yield-Chooses fuel s xs real current unblocked ring enough =
    let (t, e, picks) = select-Picks fuel s xs ring enough in
    rw (yield-select fuel s t real current unblocked e) (Picks-Chooses s xs t ring.1.0 picks)

-- The processor has gone to `t`: it is the current task, the tick of the switch is noted for it and for
-- the scheduler, and nothing about whether or when another task runs has changed.
abbrev pub Switched : Sched → ℕ → Outcome × Sched → Type 0
Switched s t (o, r) =
    (o ≡ switch t)
    × (r.task_current ≡ t)
    × ((r.tasks t).t_switch ≡ s.timer_tick)
    × (r.yield_tick ≡ s.timer_tick)
    × (r.yield_block_cnt ≡ s.yield_block_cnt)
    × ((u : ℕ) → (r.tasks u).ready ≡ (s.tasks u).ready)
    × ((u : ℕ) → u ≢ t → (r.tasks u).t_switch ≡ (s.tasks u).t_switch)

-- What a call comes to: no other ready task has waited and nothing changes, or the processor goes to
-- a ready task of `xs` that has waited, none of which has waited longer.
abbrev pub Yields : Sched → List ℕ → Outcome × Sched → Type 0
Yields s xs r =
    ((r ≡ (stay, s)) × NoneLonger s 0 xs)
    ⊎ ((t : ℕ) × (d : ℕ) × Switched s t r
        × (0 < d)
        × Any (λ u. (u ≡ t) × IsReadyFor s d u) xs
        × NoneLonger s d xs)

unlink_clocks :
    (a u : ℕ) (m : Tasks)
    → ((unlink a m u).t_switch ≡ (m u).t_switch) × ((unlink a m u).ready ≡ (m u).ready)
unfolding unlink
unlink_clocks a u m = (ground arith, ground arith)

drop_pending_clocks :
    (s : Sched) (u : ℕ)
    → (((drop_pending s).tasks u).t_switch ≡ (s.tasks u).t_switch)
      × (((drop_pending s).tasks u).ready ≡ (s.tasks u).ready)
      × ((drop_pending s).timer_tick ≡ s.timer_tick)
      × ((drop_pending s).yield_block_cnt ≡ s.yield_block_cnt)
unfolding drop_pending
drop_pending_clocks s u = at (s.tasks s.task_current).type
  where
    at :
        (type : TaskType)
        → let r : Sched = elim type [
          | delete_pending ↦ record s { tasks = unlink s.task_current s.tasks; task_current = 0 }
          | _ ↦ s
        ] in
          ((r.tasks u).t_switch ≡ (s.tasks u).t_switch)
          × ((r.tasks u).ready ≡ (s.tasks u).ready)
          × (r.timer_tick ≡ s.timer_tick)
          × (r.yield_block_cnt ≡ s.yield_block_cnt)
    at kernel = (refl, refl, refl, refl)
    at user = (refl, refl, refl, refl)
    at user_sys = (refl, refl, refl, refl)
    at delete_pending =
        let (clock, ready) = unlink_clocks s.task_current u s.tasks in (clock, ready, refl, refl)

switch_to-Switched : (s : Sched) (t : ℕ) → Switched s t (switch_to t (drop_pending s))
unfolding switch_to
switch_to-Switched s t =
    let (clock, ready, tick, block) = drop_pending_clocks s t in
    (
      refl,
      refl,
      ground (arith, tick),
      tick,
      block,
      λ u. ground (arith, (drop_pending_clocks s u).1),
      λ u other. ground (arith, (drop_pending_clocks s u).0),
    )

-- With a current task and no yield block, `task_yield` ends after at most one round of its loop for
-- each task of the queue. The wait of a task is the number of ticks since it was last switched to. If
-- no other ready task has waited, the call returns without a change. Otherwise it switches to a ready
-- one that has waited, such that no ready one has waited longer: that task is the current one, its wait
-- and the tick of the scheduler begin anew, and no other wait and no ready flag changes.
pub yield-Yields :
    (fuel : ℕ) (s : Sched) (xs : List ℕ)
    → s.task_kernel ≢ 0
    → s.task_current ≢ 0
    → s.yield_block_cnt ≡ 0
    → IsRing s.tasks s.task_current xs
    → length xs < fuel
    → Yields s xs (yield fuel s)
yield-Yields fuel s xs real current unblocked ring enough =
    elim (yield-Chooses fuel s xs real current unblocked ring enough) [
      | inl idle ↦ inl idle
      | inr (t, d, e, pos, picked, longest) ↦
          inr (t, d, subst (Switched s t) (sym e) (switch_to-Switched s t), pos, picked, longest)
    ]

-- The queue after a call, for a current task with the tasks `xs` behind it: as before if the call
-- returns or the task does not wait to be deleted, without the task if it switches away and the task
-- does.
abbrev pub QueueAfter : Sched → List ℕ → Outcome × Sched → Type 0
QueueAfter s xs r =
    (((r.0 ≡ stay) ⊎ ((s.tasks s.task_current).type ≢ delete_pending))
      × IsRing r.1.tasks s.task_current xs)
    ⊎ (((s.tasks s.task_current).type ≡ delete_pending)
        × (n : ℕ) × (ys : List ℕ) × (xs ≡ n ∷ ys)
        × IsRing r.1.tasks n ys)
