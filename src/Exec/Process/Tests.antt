-- ===== src/Exec/Process/Tests.antt =====
-- Two processes, a table of open files, and the theorems at them.
use sysx.Base.{
  ℕ, zero, suc, ◌+◌, ◌<◌, ◌≡◌, ◌≢◌, ◌⊎◌, inr, refl, true, false, none, some, [], ◌∷◌, arith, ltb,
  ◌==◌, if◌then◌else◌, get_or,
}
use sysx.Fs.Ftab.{Entry, blank, FileOps, waits, returns, find}
use sysx.Fs.Ftab.Shared.{Shared}
use sysx.Exec.Process.{no_fd, Proc, Procs, find_null, pid_alloc, proc_get, fd_open}
use sysx.Exec.Process.Create.{create}
use sysx.Exec.Process.Create.Console.{create-waits}
use sysx.Exec.Process.Create.Streams.{stream, create-streams}
use sysx.Exec.Process.Pids.{IsPidTable, Numbered, pid_alloc-IsPidTable}
use sysx.Exec.Process.Fds.{FdOpened, fd_open-FdOpened}

abbrev files : FileOps ℕ
files = record {
  on_open = λ node read write s. (ltb node 100, s + 1);
  on_close = λ node s. s + 1;
  on_read = λ node offset size s. (node, s);
  on_write = λ node offset size s. (node, s);
}

abbrev open_entry : Entry
open_entry = record { node = 7; read = true; write = false; refs = 1; excl = 0; locked = false }

abbrev proc_at : ℕ → Proc
proc_at p = record {
  pid = if p == 500 then 2 else 0;
  parent_pid = 0;
  vmm = 0;
  tasks = [];
  fds =
      record { ftab = some 0; read = true; write = false; append = false; offset = 0 } ∷ no_fd ∷ [];
}

-- Process 400 has number 0 and process 500 number 2.
abbrev procs : Procs ℕ
procs = record {
  pidtab = 400 ∷ 0 ∷ 500 ∷ 0 ∷ [];
  procs = proc_at;
  task_pid = λ t. 0;
  files = record { entries = open_entry ∷ []; locked = false; files = 0 };
}

procs-IsPidTable : IsPidTable procs
procs-IsPidTable zero h = refl
procs-IsPidTable (suc zero) h = absurd (h refl)
procs-IsPidTable (suc (suc zero)) h = refl
procs-IsPidTable (suc (suc (suc zero))) h = absurd (h refl)
procs-IsPidTable (suc (suc (suc (suc n)))) h = absurd (h refl)

new_proc : (j : ℕ) → get_or procs.pidtab j 0 ≢ 600
new_proc zero = omega arith
new_proc (suc zero) = omega arith
new_proc (suc (suc zero)) = omega arith
new_proc (suc (suc (suc zero))) = omega arith
new_proc (suc (suc (suc (suc n)))) = omega arith

first_number : (pid_alloc true 600 procs).0 ≡ some 1
unfolding pid_alloc find_null
first_number = refl

pid_alloc-IsPidTable_example :
    let (n, r) = pid_alloc true 600 procs in
    IsPidTable r
    × (((n ≡ none) × (r ≡ procs)) ⊎ ((pid : ℕ) × (n ≡ some pid) × Numbered pid 600 procs r))
pid_alloc-IsPidTable_example = pid_alloc-IsPidTable true 600 procs procs-IsPidTable new_proc

fd_open-FdOpened_example :
    FdOpened 400 7 true true false procs false
      (fd_open files (λ n s. 10) true true 400 7 false true true false false procs)
unfolding find
fd_open-FdOpened_example =
    fd_open-FdOpened files (λ n s. 10) true true 400 7 false true true false false procs
      ((refl, inr (omega arith, omega arith, omega arith)), tt) refl (omega arith) (omega arith)

console_entry : Shared 7 1 0 procs.files
unfolding Shared find
console_entry = (refl, omega arith, refl, refl, refl, omega arith, inr refl)

free_number : find_null procs.pidtab < 4
unfolding find_null
free_number = omega arith

create-streams_example :
    (t : Procs ℕ) × (create files
        (λ n s. 10)
        (λ n. (false, true))
        true
        7
        600
        500
        0x1000
        0x3000
        procs
      ≡ returns 600 t)
    × ((t.procs 600).fds
        ≡ stream 0 true false ∷ stream 0 false true ∷ stream 0 false true ∷ no_fd ∷ [])
    × (proc_get (t.procs 600).pid t ≡ 600)
create-streams_example =
    create-streams files (λ n s. 10) (λ n. false) true 7 600 500 0x1000 0x3000 1 0 procs
      (omega arith) (omega arith) free_number (omega arith) (omega arith) (omega arith)
      (λ read write s. refl) console_entry

-- An unused file table.
abbrev nothing_open : Procs ℕ
nothing_open = record procs { files = record { entries = blank ∷ []; locked = false; files = 0 } }

unused_entry :
    (find nothing_open.files.entries 200 < 1)
    × (get_or nothing_open.files.entries (find nothing_open.files.entries 200) blank ≡ blank)
unfolding find
unused_entry = (omega arith, refl)

-- No driver opens node 200.
create-waits_example :
    create files (λ n s. 10) (λ n. (true, true)) true 200 600 500 0x1000 0x3000 nothing_open ≡ waits
create-waits_example =
    create-waits files (λ n s. 10) (λ n. (true, true)) true 200 600 500 0x1000 0x3000 nothing_open
      (omega arith) (omega arith) free_number refl unused_entry.0 unused_entry.1 refl
