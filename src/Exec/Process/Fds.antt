-- ===== src/Exec/Process/Fds.antt =====
-- The file descriptors of a process.
use sysx.Base.{
  ℕ, zero, suc, ◌+◌, ◌≤◌, ◌<◌, ◌≡◌, ◌≢◌, ◌⊎◌, inl, inr, sym, ◌∙◌, ap, refl, Bool, true, false,
  Option, none, some, List, [], ◌∷◌, ◌++◌, arith, ltb, ◌==◌, if◌then◌else◌, length, get_or, set,
  replicate, length-append, length-set, get_or-set_self, get_or-set_ne, Bool-cases,
}
use sysx.Base.Memory.{update}
use sysx.Fs.Ftab.{Ftab, FileOps, Result, waits, returns, blank, refs_mod, find, open_file}
use sysx.Fs.Ftab.Room.{IsSound}
use sysx.Fs.Ftab.Open.{Opened, open_file-Opened}
use sysx.Fs.Ftab.Close.{close_file-returns}
use sysx.Exec.Process.{
  Fd, no_fd, Procs, find_fd, make_fds, fd_check, suits, fd_place, fd_open, fd_close, with_fd,
}

get_or-room : (ds : List Fd) (j : ℕ) → get_or (ds ++ replicate 4 no_fd) j no_fd ≡ get_or ds j no_fd
get_or-room [] zero = refl
get_or-room [] (suc zero) = refl
get_or-room [] (suc (suc zero)) = refl
get_or-room [] (suc (suc (suc zero))) = refl
get_or-room [] (suc (suc (suc (suc j)))) = refl
get_or-room (d ∷ ds) zero = refl
get_or-room (d ∷ ds) (suc j) = get_or-room ds j

-- A descriptor that may be taken for the file.
abbrev pub IsFree : Bool → ℕ → Fd → Type 0
IsFree duplicate f d = (d.ftab ≡ none) ⊎ ((duplicate ≡ false) × (d.ftab ≡ some f))

suits-IsFree :
    (duplicate : Bool) (f : ℕ) (d : Fd) → suits duplicate f d.ftab ≡ true → IsFree duplicate f d
suits-IsFree duplicate f d h = at d.ftab refl h
  where
    at : (o : Option ℕ) → d.ftab ≡ o → suits duplicate f o ≡ true → IsFree duplicate f d
    at none e h = inl e
    at (some g) e h = let file : g ≡ f = ground arith in (inr (ground arith, e ∙ ap some file))

find_fd_lem :
    (ds : List Fd) (duplicate : Bool) (f : ℕ)
    → (find_fd ds duplicate f ≤ length ds)
      × IsFree duplicate f (get_or ds (find_fd ds duplicate f) no_fd)
unfolding find_fd
find_fd_lem [] duplicate f = (omega arith, inl refl)
find_fd_lem (d ∷ ds) duplicate f = elim (Bool-cases (suits duplicate f d.ftab)) [
  | inl suit ↦ rw suit (omega arith, suits-IsFree duplicate f d suit)
  | inr other ↦
      let s : find_fd ds duplicate f + 1 ≡ suc (find_fd ds duplicate f) = omega arith in
      rw (other, s) (omega (arith, (find_fd_lem ds duplicate f).0), (find_fd_lem ds duplicate f).1)
]

-- A descriptor at the start of the file.
abbrev pub opened_fd : ℕ → Bool → Bool → Bool → Fd
opened_fd f read write append = record {
  ftab = some f;
  read = read;
  write = write;
  append = append;
  offset = 0;
}

-- The descriptors `gs` have the file at `i`, which was free, with the modes, and are the old ones
-- elsewhere.
abbrev pub Placed : List Fd → List Fd → Bool → ℕ → ℕ → Bool → Bool → Bool → Type 0
Placed ds gs duplicate i f read write append =
    (get_or gs i no_fd ≡ opened_fd f read write append)
    × (fd_check gs i ≡ true)
    × IsFree duplicate f (get_or ds i no_fd)
    × ((j : ℕ) → j ≢ i → get_or gs j no_fd ≡ get_or ds j no_fd)

-- The outcome of an opening: the call returns, with the descriptors as they were or with one more, for an
-- entry of the file table that has the node.
unfoldable pub FdOpened :
    {S : Type 0}
    → ℕ
    → ℕ
    → Bool
    → Bool
    → Bool
    → Procs S
    → Bool
    → Result (Procs S) (Option ℕ)
    → Type 0
FdOpened proc node read write append s duplicate waits = ⊥
FdOpened proc node read write append s duplicate (returns none r) = r.procs ≡ s.procs
FdOpened proc node read write append s duplicate (returns (some i) r) =
    (f : ℕ) × ((get_or r.files.entries f blank).node ≡ node)
    × Placed (s.procs proc).fds (r.procs proc).fds duplicate i f read write append

fd_check-set :
    (ds : List Fd) (i f : ℕ) (d : Fd)
    → i < length ds
    → d.ftab ≡ some f
    → fd_check (set ds i d) i ≡ true
unfolding fd_check
fd_check-set ds i f d lt e =
    let inside : ltb i (length (set ds i d)) ≡ true = ground (arith, length-set ds i d) in
    rw (inside, get_or-set_self ds i d no_fd lt, e)

fd_check-clear : (ds : List Fd) (i : ℕ) → i < length ds → fd_check (set ds i no_fd) i ≡ false
unfolding fd_check
fd_check-clear ds i lt =
    let inside : ltb i (length (set ds i no_fd)) ≡ true = ground (arith, length-set ds i no_fd) in
    rw (inside, get_or-set_self ds i no_fd no_fd lt)

place :
    (ds gs : List Fd) (duplicate : Bool) (i f : ℕ) (read write append : Bool)
    → i < length gs
    → ((j : ℕ) → get_or gs j no_fd ≡ get_or ds j no_fd)
    → IsFree duplicate f (get_or ds i no_fd)
    → Placed ds (set gs i (opened_fd f read write append)) duplicate i f read write append
place ds gs duplicate i f read write append lt same free = (
  get_or-set_self gs i (opened_fd f read write append) no_fd lt,
  fd_check-set gs i f (opened_fd f read write append) lt refl,
  free,
  λ j ne. get_or-set_ne gs i j (opened_fd f read write append) no_fd (λ q. ne (sym q)) ∙ same j,
)

-- What `krealloc` leaves: room for the index, and the same descriptors.
abbrev Roomy : List Fd → ℕ → Option (List Fd) → Type 0
Roomy ds i none = Unit {0}
Roomy ds i (some gs) = (i < length gs) × ((j : ℕ) → get_or gs j no_fd ≡ get_or ds j no_fd)

make_fds-Roomy :
    (allocated : Bool) (ds : List Fd) (i : ℕ) → i ≤ length ds → Roomy ds i (make_fds allocated ds i)
unfolding make_fds
make_fds-Roomy allocated ds i le = elim (Bool-cases (i == length ds)) [
  | inr inside ↦ rw inside (ground arith, λ j. refl)
  | inl end ↦ rw end (grown allocated (ground arith))
]
  where
    grown :
        (allocated : Bool)
        → i ≡ length ds
        → Roomy ds i (if allocated then some (ds ++ replicate 4 no_fd) else none)
    grown false e = tt
    grown true e = (omega (arith, e, length-append ds (replicate 4 no_fd)), λ j. get_or-room ds j)

module _ {S : Type 0} (ops : FileOps S) (node_length : ℕ → S → ℕ) where
  fd_place-FdOpened :
      (allocated : Bool) (proc node f : ℕ) (duplicate read write append : Bool) (s : Procs S)
      (t : Ftab S)
      → (get_or t.entries f blank).node ≡ node
      → FdOpened proc node read write append s duplicate (
          fd_place ops node_length allocated proc f duplicate read write append
            (record s { files = t }))
  unfolding fd_place FdOpened
  fd_place-FdOpened allocated proc node f duplicate read write append s t at = placed _ (
      make_fds-Roomy allocated (s.procs proc).fds (find_fd (s.procs proc).fds duplicate f)
        (find_fd_lem (s.procs proc).fds duplicate f).0)
    where
      placed :
          (o : Option (List Fd))
          → Roomy (s.procs proc).fds (find_fd (s.procs proc).fds duplicate f) o
          → FdOpened proc node read write append s duplicate (elim o [
            | none ↦ returns none (record s { files = t })
            | some gs ↦ returns (some (find_fd (s.procs proc).fds duplicate f)) (record s {
              files = t;
              procs = update s.procs proc (record (s.procs proc) {
                fds =
                    set gs (find_fd (s.procs proc).fds duplicate f) (opened_fd f read write append);
              });
            })
          ])
      placed none r = refl
      placed (some gs) (lt, same) =
          let self : (proc == proc) ≡ true = ground arith in
          (
            f,
            at,
            rw self (
                place (s.procs proc).fds gs duplicate (find_fd (s.procs proc).fds duplicate f) f
                  read write append lt same (find_fd_lem (s.procs proc).fds duplicate f).1),
          )

  -- With a well-formed file table, no mutex held and a count of holders that does not overflow,
  -- `proc_fd_open` returns. Either no descriptor of any process changed, or one that was free, or
  -- had the file where no duplicate is wanted, now has the entry of the node in the file table, with
  -- the modes that were asked for and at offset 0; it passes `proc_fd_check`, and the others of the
  -- process are as they were.
  pub fd_open-FdOpened :
      (allocated_file allocated : Bool) (proc node : ℕ) (duplicate read write append excl : Bool)
      (s : Procs S)
      → IsSound s.files.entries
      → s.files.locked ≡ false
      → node ≢ 0
      → (get_or s.files.entries (find s.files.entries node) blank).refs + 1 < refs_mod
      → FdOpened proc node read write append s duplicate (
          fd_open ops node_length allocated_file allocated proc node duplicate read write append
            excl s)
  unfolding fd_open Opened FdOpened
  fd_open-FdOpened allocated_file allocated proc node duplicate read write append excl s sound free
        nz small =
      opened (open_file ops allocated_file node proc read write excl s.files)
        (open_file-Opened ops allocated_file node proc read write excl s.files sound free nz small)
    where
      opened :
          (o : Result (Ftab S) (Option ℕ))
          → Opened ops node proc read write excl s.files.entries s.files.files o
          → FdOpened proc node read write append s duplicate (elim o [
            | waits ↦ waits
            | returns f t ↦ elim f [
              | none ↦ returns none (record s { files = t })
              | some f ↦
                  fd_place ops node_length allocated proc f duplicate read write append
                    (record s { files = t })
            ]
          ])
      opened waits h = elim h [ ]
      opened (returns none t) h = refl
      opened (returns (some f) t) (sound', free', entered, others) =
          fd_place-FdOpened allocated proc node f duplicate read write append s t entered.0

  -- `proc_fd_close` of a descriptor in use, whose entry of the file table no one works on, returns
  -- and frees the descriptor; no other descriptor of the process changes.
  pub fd_close-fd_check :
      (proc fd f : ℕ) (s : Procs S)
      → fd < length (s.procs proc).fds
      → (get_or (s.procs proc).fds fd no_fd).ftab ≡ some f
      → (get_or s.files.entries f blank).locked ≡ false
      → (r : Procs S) × (fd_close ops node_length proc fd s ≡ returns tt r)
        × (fd_check (r.procs proc).fds fd ≡ false)
        × ((j : ℕ) → j ≢ fd → get_or (r.procs proc).fds j no_fd ≡ get_or (s.procs proc).fds j no_fd)
  unfolding fd_close fd_check
  fd_close-fd_check proc fd f s lt file free =
      let valid : ltb fd (length (s.procs proc).fds) ≡ true = ground arith in
      let self : (proc == proc) ≡ true = ground arith in
      let (t, e) = close_file-returns ops f proc s.files free in
      (
        with_fd ops node_length proc fd no_fd (record s { files = t }),
        rw (valid, file, e),
        rw self (fd_check-clear (s.procs proc).fds fd lt),
        λ j ne. rw self (get_or-set_ne (s.procs proc).fds fd j no_fd no_fd (λ q. ne (sym q))),
      )
