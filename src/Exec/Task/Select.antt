-- ===== src/Exec/Task/Select.antt =====
-- The selection loop of `task_yield`: it comes round, and picks a ready task that has waited longest.
use sysx.Base.{
  ℕ, zero, suc, ◌≤◌, ◌<◌, ◌≡◌, refl, ◌∙◌, ap, ◌⊎◌, inl, inr, true, some, List, [], ◌∷◌, arith,
  length, All, Any,
}
use sysx.Exec.Task.{Sched, Choice, wait, consider, select}
use sysx.Exec.Task.Ring.{Linked, Fresh, IsRing}

-- The best choice after the tasks of a list.
best_of : Sched → List ℕ → Choice → Choice
best_of s [] best = best
best_of s (t ∷ ts) best = best_of s ts (consider s t best)

select-best_of :
    (fuel : ℕ) (s : Sched) (a : ℕ) (xs : List ℕ) (best : Choice)
    → Linked s.tasks a xs s.task_current
    → Fresh s.task_current xs
    → length xs < fuel
    → select fuel s a best ≡ some (best_of s xs best).task
unfolding select best_of
select-best_of zero s a xs best l f h = elim h [ ]
select-best_of (suc k) s a [] best l f h = ground arith
select-best_of (suc k) s a (x ∷ xs) best l f h =
    rw l.0 (ground (arith, select-best_of k s x xs (consider s x best) l.2 f.1))

-- `t` is ready and has waited for `d`.
abbrev pub IsReadyFor : Sched → ℕ → ℕ → Type 0
IsReadyFor s d t = ((s.tasks t).ready ≡ true) × (wait s t ≡ d)

-- No ready task of the list has waited for longer than `d`.
abbrev pub NoneLonger : Sched → ℕ → List ℕ → Type 0
NoneLonger s d = All (λ t. (s.tasks t).ready ≡ true → wait s t ≤ d)

record Chosen (s : Sched) (xs : List ℕ) (best r : Choice) : Type 0 where
  grows : best.tdelta_max ≤ r.tdelta_max
  longest : NoneLonger s r.tdelta_max xs
  origin :
      (r ≡ best)
      ⊎ ((best.tdelta_max < r.tdelta_max)
          × Any (λ t. (t ≡ r.task) × IsReadyFor s r.tdelta_max t) xs)

-- A round keeps the choice, or takes a ready task that has waited longer.
consider_cases :
    (s : Sched) (t : ℕ) (best : Choice)
    → ((consider s t best ≡ best) × ((s.tasks t).ready ≡ true → wait s t ≤ best.tdelta_max))
      ⊎ ((consider s t best ≡ record { task = t; tdelta_max = wait s t })
          × ((s.tasks t).ready ≡ true)
          × (best.tdelta_max < wait s t))
unfolding consider
consider_cases s t best = ground arith

module _ (s : Sched) (t : ℕ) (ts : List ℕ) (best c r : Choice) (rest : Chosen s ts c r) where
  Chosen-keep :
      c ≡ best → ((s.tasks t).ready ≡ true → wait s t ≤ best.tdelta_max) → Chosen s (t ∷ ts) best r
  Chosen-keep e short = record {
    grows = ground arith;
    longest = (λ ready. ground (arith, short ready), rest.longest);
    origin = elim rest.origin [
      | inl same ↦ inl (same ∙ e)
      | inr (more, picked) ↦ inr (ground arith, inr picked)
    ];
  }

  Chosen-take :
      c ≡ record { task = t; tdelta_max = wait s t }
      → (s.tasks t).ready ≡ true
      → best.tdelta_max < wait s t
      → Chosen s (t ∷ ts) best r
  Chosen-take e ready long = record {
    grows = ground arith;
    longest = (λ _. ground arith, rest.longest);
    origin = elim rest.origin [
      | inl same ↦ inr (ground arith, inl (ground arith))
      | inr (more, picked) ↦ inr (ground arith, inr picked)
    ];
  }

best_of-Chosen : (s : Sched) (xs : List ℕ) (best : Choice) → Chosen s xs best (best_of s xs best)
unfolding best_of
best_of-Chosen s [] best = record { grows = omega arith; longest = tt; origin = inl refl }
best_of-Chosen s (t ∷ ts) best =
    let rest = best_of-Chosen s ts (consider s t best) in
    elim (consider_cases s t best) [
      | inl (e, short) ↦ Chosen-keep s t ts best (consider s t best) _ rest e short
      | inr (e, ready, long) ↦ Chosen-take s t ts best (consider s t best) _ rest e ready long
    ]

-- What the selection comes to, for the tasks `xs` behind the current one.
abbrev pub Picks : Sched → List ℕ → ℕ → Type 0
Picks s xs t =
    ((t ≡ s.task_current) × NoneLonger s 0 xs)
    ⊎ ((d : ℕ) × (0 < d) × Any (λ u. (u ≡ t) × IsReadyFor s d u) xs × NoneLonger s d xs)

-- On the queue of a current task and the tasks `xs`, the selection loop ends after one round for each
-- task. It picks the current task only if no other ready task has waited at all, and otherwise a
-- ready one of `xs` that has waited, such that no ready one of `xs` has waited longer.
pub select-Picks :
    (fuel : ℕ) (s : Sched) (xs : List ℕ)
    → IsRing s.tasks s.task_current xs
    → length xs < fuel
    → (t : ℕ) × (select fuel s s.task_current (record { task = s.task_current; tdelta_max = 0 })
        ≡ some t)
      × Picks s xs t
select-Picks fuel s xs (l, (f, d)) enough =
    let best : Choice = record { task = s.task_current; tdelta_max = 0 } in
    let r = best_of s xs best in
    (
      r.task,
      select-best_of fuel s s.task_current xs best l f enough,
      picks r (best_of-Chosen s xs best),
    )
  where
    picks :
        (r : Choice)
        → Chosen s xs (record { task = s.task_current; tdelta_max = 0 }) r
        → Picks s xs r.task
    picks r c = elim c.origin [
      | inl same ↦
          let none_waited : r.tdelta_max ≡ 0 = ap (λ (b : Choice). b.tdelta_max) same in
          inl (ap (λ (b : Choice). b.task) same, rw none_waited at c.longest)
      | inr (more, picked) ↦ inr (r.tdelta_max, more, picked, c.longest)
    ]
