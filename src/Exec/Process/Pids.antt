-- ===== src/Exec/Process/Pids.antt =====
-- The table of process numbers.
use sysx.Base.{
  ℕ, zero, suc, ◌+◌, ◌≤◌, ◌<◌, ◌≡◌, ◌≢◌, ◌⊎◌, inl, inr, ◌∙◌, refl, Bool, true, false, not, ◌||◌,
  Option, none, some, List, [], ◌∷◌, ◌++◌, arith, leb, ltb, ◌==◌, ◌!=◌, if◌then◌else◌, length,
  get_or, set, replicate, length-append, length-set, Bool-cases, ltb→lt, ◌^◌,
}
use sysx.Base.Memory.{update}
use sysx.Exec.Process.{Procs, find_null, pid_alloc, pid_free, proc_get}

-- Each process in the table carries its own number.
abbrev pub IsPidTable : {S : Type 0} → Procs S → Type 0
IsPidTable s = (pid : ℕ) → get_or s.pidtab pid 0 ≢ 0 → (s.procs (get_or s.pidtab pid 0)).pid ≡ pid

find_null_lem :
    (ps : List ℕ)
    → (find_null ps ≤ length ps)
      × (get_or ps (find_null ps) 0 ≡ 0)
      × ((j : ℕ) → j < find_null ps → get_or ps j 0 ≢ 0)
unfolding find_null
find_null_lem [] = (omega arith, refl, λ j h. elim h [ ])
find_null_lem (p ∷ ps) = elim (Bool-cases (p == 0)) [
  | inl here ↦ rw here (omega arith, ground arith, λ j h. elim h [ ])
  | inr there ↦ rw there (next (λ e. ground arith) (find_null_lem ps))
]
  where
    next :
        p ≢ 0
        → (find_null ps ≤ length ps)
          × (get_or ps (find_null ps) 0 ≡ 0)
          × ((j : ℕ) → j < find_null ps → get_or ps j 0 ≢ 0)
        → (find_null ps + 1 ≤ suc (length ps))
          × (get_or (p ∷ ps) (find_null ps + 1) 0 ≡ 0)
          × ((j : ℕ) → j < find_null ps + 1 → get_or (p ∷ ps) j 0 ≢ 0)
    next nz (le, free, below) =
        let s : find_null ps + 1 ≡ suc (find_null ps) = omega arith in
        rw s (omega (arith, le), free, under)
      where
        under : (j : ℕ) → j < suc (find_null ps) → get_or (p ∷ ps) j 0 ≢ 0
        under zero h = nz
        under (suc j) h = below j (omega arith)

get_or-set :
    (ps : List ℕ) (i j v : ℕ)
    → i < length ps
    → get_or (set ps i v) j 0 ≡ (if j == i then v else get_or ps j 0)
get_or-set [] i j v h = elim h [ ]
get_or-set (p ∷ ps) zero zero v h = refl
get_or-set (p ∷ ps) zero (suc j) v h = ground arith
get_or-set (p ∷ ps) (suc i) zero v h = ground arith
get_or-set (p ∷ ps) (suc i) (suc j) v h = ground (arith, get_or-set ps i j v)

get_or-grown :
    (ps : List ℕ) (j v : ℕ)
    → get_or (ps ++ (v ∷ replicate 3 0)) j 0 ≡ (if j == length ps then v else get_or ps j 0)
get_or-grown [] zero v = refl
get_or-grown [] (suc zero) v = refl
get_or-grown [] (suc (suc zero)) v = refl
get_or-grown [] (suc (suc (suc zero))) v = refl
get_or-grown [] (suc (suc (suc (suc j)))) v = ground arith
get_or-grown (p ∷ ps) zero v = ground arith
get_or-grown (p ∷ ps) (suc j) v = ground (arith, get_or-grown ps j v)

module _ {S : Type 0} where
  -- A number that was free now belongs to the process, and all others are as they were.
  abbrev pub Numbered : ℕ → ℕ → Procs S → Procs S → Type 0
  Numbered pid proc s r =
      (get_or s.pidtab pid 0 ≡ 0)
      × ((j : ℕ) → j < pid → get_or s.pidtab j 0 ≢ 0)
      × (proc_get pid r ≡ proc)
      × ((j : ℕ) → get_or r.pidtab j 0 ≡ (if j == pid then proc else get_or s.pidtab j 0))

  stays :
      (proc : ℕ) (s r : Procs S)
      → IsPidTable s
      → ((j : ℕ) → get_or s.pidtab j 0 ≢ proc)
      → r.procs ≡ update s.procs proc (record (s.procs proc) { pid = find_null s.pidtab })
      → ((j : ℕ)
          → get_or r.pidtab j 0 ≡ (if j == find_null s.pidtab then proc else get_or s.pidtab j 0))
      → IsPidTable r
  stays proc s r h fresh procs tab pid used =
      rw (procs, tab pid)
        (elim (Bool-cases (pid == find_null s.pidtab)) [
          | inl e ↦ rw e (ground arith)
          | inr e ↦
              let other : (proc == get_or s.pidtab pid 0) ≡ false = ground (arith, fresh pid) in
              rw (e, other) (h pid (λ z. used (tab pid ∙ rw e z)))
        ])

  proc_get_lem :
      (pid proc : ℕ) (s r : Procs S)
      → pid < length r.pidtab
      → get_or r.pidtab pid 0 ≡ (if pid == pid then proc else get_or s.pidtab pid 0)
      → proc_get pid r ≡ proc
  unfolding proc_get
  proc_get_lem pid proc s r lt tab = ground (arith, tab)

  -- What an attempt to give out a number comes to.
  abbrev Attempt : ℕ → Procs S → Option ℕ × Procs S → Type 0
  Attempt proc s (n, r) =
      IsPidTable r × (((n ≡ none) × (r ≡ s)) ⊎ ((pid : ℕ) × (n ≡ some pid) × Numbered pid proc s r))

  gives :
      (proc : ℕ) (s r : Procs S)
      → IsPidTable s
      → ((j : ℕ) → get_or s.pidtab j 0 ≢ proc)
      → r.procs ≡ update s.procs proc (record (s.procs proc) { pid = find_null s.pidtab })
      → ((j : ℕ)
          → get_or r.pidtab j 0 ≡ (if j == find_null s.pidtab then proc else get_or s.pidtab j 0))
      → find_null s.pidtab < length r.pidtab
      → Attempt proc s (some (find_null s.pidtab), r)
  gives proc s r h fresh procs tab lt =
      let (le, free, below) = find_null_lem s.pidtab in
      let n = find_null s.pidtab in
      (
        stays proc s r h fresh procs tab,
        inr (n, refl, (free, below, proc_get_lem n proc s r lt (tab n), tab)),
      )

  grown :
      (proc : ℕ) (s : Procs S)
      → IsPidTable s
      → ((j : ℕ) → get_or s.pidtab j 0 ≢ proc)
      → find_null s.pidtab ≡ length s.pidtab
      → Attempt proc s (
        some (find_null s.pidtab),
        record s {
          procs = update s.procs proc (record (s.procs proc) { pid = find_null s.pidtab });
          pidtab = s.pidtab ++ (proc ∷ replicate 3 0);
        },
      )
  grown proc s h fresh end =
      gives proc s _ h fresh refl (λ j. get_or-grown s.pidtab j proc ∙ rw end)
        (omega (arith, end, length-append s.pidtab (proc ∷ replicate 3 0)))

  -- In a table where each process carries its own number, `proc_pid_alloc` of a process that is not
  -- in it gives that the lowest free number, under which `proc_get` then finds it, and changes no
  -- other; or it fails and changes nothing. Each process in the table carries its own number
  -- afterwards.
  pub pid_alloc-IsPidTable :
      (allocated : Bool) (proc : ℕ) (s : Procs S)
      → IsPidTable s
      → ((j : ℕ) → get_or s.pidtab j 0 ≢ proc)
      → let (n, r) = pid_alloc allocated proc s in
        IsPidTable r
        × (((n ≡ none) × (r ≡ s)) ⊎ ((pid : ℕ) × (n ≡ some pid) × Numbered pid proc s r))
  unfolding pid_alloc
  pid_alloc-IsPidTable allocated proc s h fresh =
      let full = ltb 65535 (length s.pidtab) || leb (2 ^ 28) (length s.pidtab) in
      let le = (find_null_lem s.pidtab).0 in
      elim (Bool-cases (find_null s.pidtab != length s.pidtab)) [
        | inl inside ↦
            let lt : find_null s.pidtab < length s.pidtab = ground arith in
            rw inside (
              gives proc s _ h fresh refl (λ j. get_or-set s.pidtab (find_null s.pidtab) j proc lt)
                (omega (arith, lt, length-set s.pidtab (find_null s.pidtab) proc)))
        | inr outside ↦
            let end : find_null s.pidtab ≡ length s.pidtab = ground arith in
            rw outside (attempt full allocated (grown proc s h fresh end))
      ]
    where
      attempt :
          (full allocated : Bool) {r : Procs S} {n : ℕ}
          → Attempt proc s (some n, r)
          → Attempt proc s
              (if full then (none, s) else if not allocated then (none, s) else (some n, r))
      attempt true a g = (h, inl (refl, refl))
      attempt false false g = (h, inl (refl, refl))
      attempt false true g = g

  -- In a table where each process carries its own number, `proc_pid_free` takes a process out under
  -- its number, leaves the other numbers alone, and keeps the table so.
  pub pid_free-IsPidTable :
      (pid : ℕ) (s : Procs S)
      → IsPidTable s
      → IsPidTable (pid_free pid s)
        × ((j : ℕ) → proc_get j (pid_free pid s) ≡ (if j == pid then 0 else proc_get j s))
  unfolding pid_free proc_get
  pid_free-IsPidTable pid s h = elim (Bool-cases (ltb pid (length s.pidtab))) [
    | inl inside ↦
        let tab : (j : ℕ)
            → get_or (set s.pidtab pid 0) j 0 ≡ (if j == pid then 0 else get_or s.pidtab j 0) =
          λ j. get_or-set s.pidtab pid j 0 (ltb→lt _ _ inside) in
        rw inside (
          λ j used. rw (tab j) (elim (Bool-cases (j == pid)) [
            | inl e ↦ absurd (used (tab j ∙ rw e))
            | inr e ↦ rw e (h j (λ z. used (tab j ∙ rw e z)))
          ]),
          λ j. ground (arith, tab j, length-set s.pidtab pid 0),
        )
    | inr outside ↦ rw outside (h, λ j. ground arith)
  ]
