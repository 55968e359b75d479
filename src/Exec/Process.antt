-- ===== src/Exec/Process.antt =====
-- exec/process.c: the table of process numbers, the tasks of a process and its file descriptors. A
-- process, a task and a node are known by their addresses, an entry of the file table by its index.
-- `S` is the state of the file system.
pub mod Pids
pub mod Fds
pub mod Create
mod Tests
use sysx.Base.{
  ℕ, zero, suc, ◌+◌, ◌-◌, ◌%◌, ◌^◌, Bool, true, false, not, ◌&&◌, ◌||◌, Option, none, some, List,
  [], ◌∷◌, ◌++◌, leb, ltb, ◌==◌, ◌!=◌, if◌then◌else◌, length, get_or, set, replicate, u64_mod,
}
use sysx.Base.Memory.{update}
use sysx.Fs.Ftab.{
  Ftab, FileOps, Result, waits, returns, blank, open_file, close_file, read_file, write_file,
}

-- `fd_t`; its mutex is held within single calls only.
pub record Fd : Type 0 where
  pub ftab : Option ℕ
  pub read : Bool
  pub write : Bool
  pub append : Bool
  pub offset : ℕ

abbrev pub no_fd : Fd
no_fd = record { ftab = none; read = false; write = false; append = false; offset = 0 }

-- `struct proc` without the program segments and the mutexes.
pub record Proc : Type 0 where
  pub pid : ℕ
  pub parent_pid : ℕ
  pub vmm : ℕ
  pub tasks : List ℕ
  pub fds : List Fd

-- `proc_pidtab` and `proc_pidtab_len`, the process structures, the process number that each task
-- carries, and the file table.
pub record Procs (S : Type 0) : Type 0 where
  pub pidtab : List ℕ
  pub procs : ℕ → Proc
  pub task_pid : ℕ → ℕ
  pub files : Ftab S

-- The first index that holds null, or the length.
pub find_null : List ℕ → ℕ
find_null [] = 0
find_null (p ∷ ps) = let rest = find_null ps + 1 in if p == 0 then 0 else rest

-- The first index that holds the task or null, or the length.
pub find_task : List ℕ → ℕ → ℕ
find_task [] task = 0
find_task (t ∷ ts) task =
    let rest = find_task ts task + 1 in if t == task || t == 0 then 0 else rest

-- The loop of `proc_delete_task`: the first entry with the task becomes null.
pub drop_task : List ℕ → ℕ → List ℕ
drop_task [] task = []
drop_task (t ∷ ts) task = let rest = drop_task ts task in if t == task then 0 ∷ ts else t ∷ rest

module _ {S : Type 0} where
  abbrev pub with_proc : ℕ → Proc → Procs S → Procs S
  with_proc p x s = record s { procs = update s.procs p x }

  -- `proc_pid_alloc`; `none` is (size_t)-1, and `allocated` the success of `krealloc`.
  pub pid_alloc : Bool → ℕ → Procs S → Option ℕ × Procs S
  unfolding find_null
  pid_alloc allocated proc s =
      let pid = find_null s.pidtab in
      let numbered : Procs S = with_proc proc (record (s.procs proc) { pid = pid }) s in
      if pid != length s.pidtab
      then (some pid, record numbered { pidtab = set s.pidtab pid proc })
      else if ltb 65535 (length s.pidtab) || leb (2 ^ 28) (length s.pidtab)
      then (none, s)
      else if not allocated
      then (none, s)
      else (some pid, record numbered { pidtab = s.pidtab ++ (proc ∷ replicate 3 0) })

  pub pid_free : ℕ → Procs S → Procs S
  pid_free pid s = if ltb pid (length s.pidtab) then record s { pidtab = set s.pidtab pid 0 } else s

  -- `proc_do_delete`, without giving back the address space and the memory of the structure.
  pub do_delete : ℕ → Procs S → Procs S
  unfolding pid_free
  do_delete proc s = pid_free (s.procs proc).pid s

  pub proc_get : ℕ → Procs S → ℕ
  proc_get pid s = if ltb pid (length s.pidtab) then get_or s.pidtab pid 0 else 0

  -- `proc_add_task`: a task that the process has already is left alone.
  pub add_task : Bool → ℕ → ℕ → Procs S → Option ℕ × Procs S
  unfolding find_task
  add_task allocated proc task s =
      let x = s.procs proc in
      let i = find_task x.tasks task in
      let joined : Procs S = record s { task_pid = update s.task_pid task x.pid } in
      if i != length x.tasks
      then (if get_or x.tasks i 0 == task
          then (some i, s)
          else (some i, with_proc proc (record x { tasks = set x.tasks i task }) joined))
      else if not allocated
      then (none, s)
      else (some i, with_proc proc (record x { tasks = x.tasks ++ (task ∷ replicate 3 0) }) joined)

  -- `proc_delete_task`, without the `task_delete` that ends it.
  pub delete_task : ℕ → ℕ → Procs S → Procs S
  unfolding drop_task
  delete_task proc task s =
      with_proc proc (record (s.procs proc) { tasks = drop_task (s.procs proc).tasks task }) s

abbrev pub suits : Bool → ℕ → Option ℕ → Bool
suits duplicate f none = true
suits duplicate f (some g) = not duplicate && g == f

-- The first descriptor that is free, or has the file if no duplicate is wanted; or the length.
pub find_fd : List Fd → Bool → ℕ → ℕ
find_fd [] duplicate f = 0
find_fd (d ∷ ds) duplicate f =
    let rest = find_fd ds duplicate f + 1 in if suits duplicate f d.ftab then 0 else rest

-- The descriptors with room for the index; `none` if `krealloc` fails.
pub make_fds : Bool → List Fd → ℕ → Option (List Fd)
make_fds allocated ds i =
    if i == length ds then (if allocated then some (ds ++ replicate 4 no_fd) else none) else some ds

-- `proc_fd_check` on the descriptors of the process.
pub fd_check : List Fd → ℕ → Bool
fd_check ds fd =
    if ltb fd (length ds)
    then elim (get_or ds fd no_fd).ftab [ none ↦ false | some f ↦ true ]
    else false

module _ {S : Type 0} (ops : FileOps S) (node_length : ℕ → S → ℕ) where
  abbrev pub with_fd : ℕ → ℕ → Fd → Procs S → Procs S
  with_fd proc fd d s =
      with_proc proc (record (s.procs proc) { fds = set (s.procs proc).fds fd d }) s

  -- The part of `proc_fd_open` behind `ftab_open`: a descriptor for the file.
  pub fd_place : Bool → ℕ → ℕ → Bool → Bool → Bool → Bool → Procs S → Result (Procs S) (Option ℕ)
  unfolding find_fd make_fds
  fd_place allocated proc f duplicate read write append s =
      let i = find_fd (s.procs proc).fds duplicate f in
      let d : Fd = record {
        ftab = some f;
        read = read;
        write = write;
        append = append;
        offset = 0;
      } in
      elim (make_fds allocated (s.procs proc).fds i) [
        | none ↦ returns none s
        | some ds ↦ returns (some i) (with_proc proc (record (s.procs proc) { fds = set ds i d }) s)
      ]

  -- `proc_fd_open`; `allocated` is the success of `krealloc` for the descriptors, `allocated_file` for
  -- the file table.
  pub fd_open :
      Bool → Bool → ℕ → ℕ → Bool → Bool → Bool → Bool → Bool → Procs S → Result (Procs S) (Option ℕ)
  unfolding fd_place
  fd_open allocated_file allocated proc node duplicate read write append excl s =
      elim (open_file ops allocated_file node proc read write excl s.files) [
        | waits ↦ waits
        | returns f t ↦ elim f [
          | none ↦ returns none (record s { files = t })
          | some f ↦ fd_place allocated proc f duplicate read write append (record s { files = t })
        ]
      ]

  pub fd_close : ℕ → ℕ → Procs S → Result (Procs S) Unit
  unfolding fd_check
  fd_close proc fd s =
      if not (fd_check (s.procs proc).fds fd)
      then returns tt s
      else (elim (get_or (s.procs proc).fds fd no_fd).ftab [
        | none ↦ returns tt s
        | some f ↦ elim (close_file ops f proc s.files) [
          | waits ↦ waits
          | returns u t ↦ returns tt (with_fd proc fd no_fd (record s { files = t }))
        ]
      ])

  pub fd_read : ℕ → ℕ → ℕ → Procs S → Result (Procs S) ℕ
  unfolding fd_check
  fd_read proc fd size s =
      let d = get_or (s.procs proc).fds fd no_fd in
      if not (fd_check (s.procs proc).fds fd)
      then returns 0 s
      else if not d.read
      then returns 0 s
      else (elim d.ftab [
        | none ↦ returns 0 s
        | some f ↦ elim (read_file ops f proc d.offset size s.files) [
          | waits ↦ waits
          | returns ret t ↦ returns ret (
              with_fd proc fd (record d { offset = (d.offset + ret) % u64_mod })
                (record s { files = t }))
        ]
      ])

  -- With O_APPEND the offset is first set to the length of the file.
  pub fd_write : ℕ → ℕ → ℕ → Procs S → Result (Procs S) ℕ
  unfolding fd_check
  fd_write proc fd size s =
      let d = get_or (s.procs proc).fds fd no_fd in
      if not (fd_check (s.procs proc).fds fd)
      then returns 0 s
      else if not d.write
      then returns 0 s
      else (elim d.ftab [
        | none ↦ returns 0 s
        | some f ↦
            let start =
              if d.append
              then node_length (get_or s.files.entries f blank).node s.files.files
              else d.offset in
            elim (write_file ops f proc start size s.files) [
              | waits ↦ waits
              | returns ret t ↦ returns ret (
                  with_fd proc fd (record d { offset = (start + ret) % u64_mod })
                    (record s { files = t }))
            ]
      ])
