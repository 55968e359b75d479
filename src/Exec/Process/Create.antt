-- ===== src/Exec/Process/Create.antt =====
-- `proc_create` of exec/process.c. The addresses that kcalloc and vmm_clone give, 0 where they fail,
-- and the success of krealloc in each call are arguments; what is given back on failure is left out.
pub mod Console
pub mod Streams
use sysx.Base.{
  ℕ, zero, suc, ◌+◌, Bool, true, false, ◌&&◌, ◌||◌, Option, none, some, List, [], ◌∷◌, ◌==◌, ◌!=◌,
  if◌then◌else◌,
}
use sysx.Fs.Ftab.{FileOps, Result, waits, returns}
use sysx.Exec.Process.{Proc, Procs, with_proc, pid_alloc, fd_open}

-- Whether stdin, stdout and stderr are read and written.
abbrev pub streams : List (Bool × Bool)
streams = (true, false) ∷ (false, true) ∷ (false, true) ∷ []

-- The structure that `kcalloc` clears, with its address space.
abbrev pub new_proc : ℕ → ℕ → Proc
new_proc vmm cloned = record {
  pid = 0;
  parent_pid = 0;
  vmm = if vmm != 0 then cloned else 0;
  tasks = [];
  fds = [];
}

module _ {S : Type 0} (ops : FileOps S) (node_length : ℕ → S → ℕ) where
  -- The calls of `proc_fd_open` for the streams, from number `n` on; a failure is only printed.
  pub open_streams :
      (ℕ → Bool × Bool) → ℕ → ℕ → ℕ → List (Bool × Bool) → Procs S → Result (Procs S) Unit
  open_streams answers proc console n [] s = returns tt s
  open_streams answers proc console n (mode ∷ rest) s =
      elim (fd_open ops node_length (answers n).0 (answers n).1 proc console true mode.0 mode.1
        false false s) [
          | waits ↦ waits
          | returns fd s' ↦ open_streams answers proc console (n + 1) rest s'
        ]

  -- `proc_create`; `console` is `dev_console`, and the result 0 is null.
  pub create : (ℕ → Bool × Bool) → Bool → ℕ → ℕ → ℕ → ℕ → ℕ → Procs S → Result (Procs S) ℕ
  unfolding open_streams pid_alloc
  create answers numbered console proc parent vmm cloned s =
      let (pid, s') = pid_alloc numbered proc (with_proc proc (new_proc vmm cloned) s) in
      if proc == 0 || (vmm != 0 && cloned == 0) then returns 0 s else (elim pid [
        | none ↦ returns 0 s'
        | some n ↦ elim (open_streams answers proc console 0 streams s') [
          | waits ↦ waits
          | returns u t ↦ returns proc (
              if parent != 0
              then with_proc proc (record (t.procs proc) { parent_pid = (t.procs parent).pid }) t
              else t)
        ]
      ])
