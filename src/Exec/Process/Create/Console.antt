-- ===== src/Exec/Process/Create/Console.antt =====
-- `proc_create` where the console cannot be opened.
use sysx.Base.{
  ℕ, ◌<◌, ◌≡◌, ◌≢◌, refl, Bool, true, false, ◌&&◌, ◌||◌, none, some, ◌==◌, ◌!=◌, length, get_or,
  arith,
}
use sysx.Fs.Ftab.{Ftab, FileOps, waits, returns, blank, find, open_file}
use sysx.Fs.Ftab.Close.{open_file-waits}
use sysx.Exec.Process.{Procs, with_proc, find_null, pid_alloc, fd_open}
use sysx.Exec.Process.Create.{new_proc, streams, open_streams, create}

module _ {S : Type 0} (ops : FileOps S) (node_length : ℕ → S → ℕ) where
  fd_open-none :
      (a b : Bool) (proc node : ℕ) (read write : Bool) (s : Procs S) (u : Ftab S)
      → open_file ops a node proc read write false s.files ≡ returns none u
      → fd_open ops node_length a b proc node true read write false false s
        ≡ returns none (record s { files = u })
  unfolding fd_open
  fd_open-none a b proc node read write s u e = rw (fd_open, e) refl

  fd_open-waits :
      (a b : Bool) (proc node : ℕ) (read write : Bool) (s : Procs S)
      → open_file ops a node proc read write false s.files ≡ waits
      → fd_open ops node_length a b proc node true read write false false s ≡ waits
  unfolding fd_open
  fd_open-waits a b proc node read write s e = rw (fd_open, e) refl

  -- A first call that leaves the file table locked, and the second.
  open_streams-waits :
      (answers : ℕ → Bool × Bool) (proc console : ℕ) (s : Procs S) (u : Ftab S)
      → open_file ops (answers 0).0 console proc true false false s.files ≡ returns none u
      → ((allocated' : Bool) (node' proc' : ℕ) (read' write' excl' : Bool)
          → open_file ops allocated' node' proc' read' write' excl' u ≡ waits)
      → open_streams ops node_length answers proc console 0 streams s ≡ waits
  unfolding open_streams
  open_streams-waits answers proc console s u first later =
      rw
        (
          open_streams,
          fd_open-none (answers 0).0 (answers 0).1 proc console true false s u first,
          fd_open-waits (answers 1).0 (answers 1).1 proc console false true (record s { files = u })
              (later (answers 1).0 console proc false true false),
        )
        refl

  pid_alloc-free :
      (numbered : Bool) (proc : ℕ) (s : Procs S)
      → find_null s.pidtab < length s.pidtab
      → ((pid_alloc numbered proc s).0 ≡ some (find_null s.pidtab))
        × ((pid_alloc numbered proc s).1.files ≡ s.files)
  unfolding pid_alloc
  pid_alloc-free numbered proc s room =
      let vacant : (find_null s.pidtab != length s.pidtab) ≡ true = ground arith in
      rw (pid_alloc, vacant) (refl, refl)

  -- If a number is free, and the first opening of the console fails, in an unused entry of a file
  -- table whose mutex is free, `proc_create` never returns: it waits for the mutex that the attempt to
  -- open stdin left held.
  pub create-waits :
      (answers : ℕ → Bool × Bool) (numbered : Bool) (console proc parent vmm cloned : ℕ)
      (s : Procs S)
      → proc ≢ 0
      → cloned ≢ 0
      → find_null s.pidtab < length s.pidtab
      → s.files.locked ≡ false
      → find s.files.entries console < length s.files.entries
      → get_or s.files.entries (find s.files.entries console) blank ≡ blank
      → (ops.on_open console true false s.files.files).0 ≡ false
      → create ops node_length answers numbered console proc parent vmm cloned s ≡ waits
  unfolding create
  create-waits answers numbered console proc parent vmm cloned s there copied room free inside empty
        failed =
      let begun = with_proc proc (new_proc vmm cloned) s in
      let (number, same) = pid_alloc-free numbered proc begun room in
      let (u, first, later) =
        open_file-waits ops (answers 0).0 console proc true false false s.files free inside empty
          failed in
      let made : (proc == 0 || (vmm != 0 && cloned == 0)) ≡ false = ground arith in
      rw
        (
          create,
          number,
          made,
          open_streams-waits answers proc console (pid_alloc numbered proc begun).1 u
              (rw same first) later,
        )
        refl
