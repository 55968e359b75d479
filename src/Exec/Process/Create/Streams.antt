-- ===== src/Exec/Process/Create/Streams.antt =====
-- The streams that `proc_create` gives to a process.
use sysx.Base.{
  ℕ, ◌+◌, ◌<◌, ◌≡◌, ◌≢◌, refl, Bool, true, false, ◌&&◌, ◌||◌, some, List, [], ◌∷◌, ltb, ◌==◌, ◌!=◌,
  if◌then◌else◌, Bool-cases, inl, inr, length, get_or, set, get_or-set_self, length-set, arith,
}
use sysx.Fs.Ftab.{FileOps, returns, refs_mod}
use sysx.Fs.Ftab.Shared.{Shared, open_file-Shared}
use sysx.Exec.Process.{
  Fd, no_fd, Proc, Procs, with_proc, find_null, find_fd, make_fds, pid_alloc, proc_get, fd_place,
  fd_open,
}
use sysx.Exec.Process.Create.{new_proc, streams, open_streams, create}

-- A descriptor at the start of the file.
abbrev pub stream : ℕ → Bool → Bool → Fd
stream f read write = record {
  ftab = some f;
  read = read;
  write = write;
  append = false;
  offset = 0;
}

-- The process has the descriptors and its number, and is in the table under it.
pub Has : {S : Type 0} → ℕ → List Fd → Procs S → Type 0
Has proc ds s =
    ((s.procs proc).fds ≡ ds)
    × ((s.procs proc).pid < length s.pidtab)
    × (get_or s.pidtab (s.procs proc).pid 0 ≡ proc)

module _ {S : Type 0} (ops : FileOps S) (node_length : ℕ → S → ℕ) where
  fd_place-Has :
      (proc f : ℕ) (read write : Bool) (ds gs : List Fd) (s : Procs S)
      → make_fds true ds (find_fd ds true f) ≡ some gs
      → Has proc ds s
      → (s' : Procs S) × (fd_place ops node_length true proc f true read write false s
          ≡ returns (some (find_fd ds true f)) s')
        × Has proc (set gs (find_fd ds true f) (stream f read write)) s'
        × (s'.files ≡ s.files)
  unfolding fd_place Has
  fd_place-Has proc f read write ds gs s room (fds, low, number) =
      let self : (proc == proc) ≡ true = ground arith in
      let x : Proc = record (s.procs proc) {
        fds = set gs (find_fd ds true f) (stream f read write);
      } in
      (with_proc proc x s, rw (fd_place, fds, room, fds) refl, rw self (refl, low, number), refl)

  fd_open-Has :
      (a : Bool) (proc console k idx : ℕ) (read write : Bool) (ds gs : List Fd) (s : Procs S)
      → console ≢ 0
      → 0 < k
      → k + 1 < refs_mod
      → ((read write : Bool) (s : S) → (ops.on_open console read write s).0 ≡ true)
      → make_fds true ds (find_fd ds true idx) ≡ some gs
      → Has proc ds s
      → Shared console k idx s.files
      → (s' : Procs S) × (fd_open ops node_length a true proc console true read write false false s
          ≡ returns (some (find_fd ds true idx)) s')
        × Has proc (set gs (find_fd ds true idx) (stream idx read write)) s'
        × Shared console (k + 1) idx s'.files
  unfolding fd_open Has
  fd_open-Has a proc console k idx read write ds gs s there held few ok room has shared =
      let (u, opened, shared') =
        open_file-Shared ops a console proc k idx read write s.files there held few ok shared in
      let (s', placed, has', files) =
        fd_place-Has proc idx read write ds gs (record s { files = u }) room has in
      (s', rw (fd_open, opened) placed, has', rw files shared')

  open_streams-Has :
      (answers : ℕ → Bool) (proc console k idx : ℕ) (s : Procs S)
      → console ≢ 0
      → 0 < k
      → k + 3 < refs_mod
      → ((read write : Bool) (s : S) → (ops.on_open console read write s).0 ≡ true)
      → Has proc [] s
      → Shared console k idx s.files
      → (t : Procs S) × (open_streams ops node_length
            (λ n. (answers n, true))
            proc
            console
            0
            streams
            s
          ≡ returns tt t)
        × Has proc
            (stream idx true false ∷ stream idx false true ∷ stream idx false true ∷ no_fd ∷ [])
            t
  unfolding open_streams find_fd make_fds
  open_streams-Has answers proc console k idx s there held few ok has shared =
      let (a, first, has_a, shared_a) =
        fd_open-Has (answers 0) proc console k idx true false [] _ s there held (omega arith) ok
          refl has shared in
      let (b, second, has_b, shared_b) =
        fd_open-Has (answers 1) proc console (k + 1) idx false true _ _ a there (omega arith)
          (omega arith) ok refl has_a shared_a in
      let (c, third, has_c, shared_c) =
        fd_open-Has (answers 2) proc console (k + 1 + 1) idx false true _ _ b there (omega arith)
          (omega arith) ok refl has_b shared_b in
      (c, rw (open_streams, first, second, third) refl, has_c)

  pid_alloc-Has :
      (numbered : Bool) (proc : ℕ) (s : Procs S)
      → find_null s.pidtab < length s.pidtab
      → (s.procs proc).fds ≡ []
      → let (n, r) = pid_alloc numbered proc s in
        (n ≡ some (find_null s.pidtab)) × Has proc [] r × (r.files ≡ s.files)
  unfolding pid_alloc Has
  pid_alloc-Has numbered proc s room blank_ =
      let vacant : (find_null s.pidtab != length s.pidtab) ≡ true = ground arith in
      let self : (proc == proc) ≡ true = ground arith in
      rw (pid_alloc, vacant)
        (
          refl,
          rw self (
            blank_,
            omega (arith, room, length-set s.pidtab (find_null s.pidtab) proc),
            get_or-set_self s.pidtab (find_null s.pidtab) proc 0 room,
          ),
          refl,
        )

  Has-parent :
      (proc : ℕ) (ds : List Fd) (parent : ℕ) (t : Procs S)
      → Has proc ds t
      → Has proc ds (
          if parent != 0
          then with_proc proc (record (t.procs proc) { parent_pid = (t.procs parent).pid }) t
          else t)
  unfolding Has
  Has-parent proc ds parent t has =
      let self : (proc == proc) ≡ true = ground arith in
      elim (Bool-cases (parent != 0)) [
        | inl some_parent ↦ rw (some_parent, self) has
        | inr no_parent ↦ rw no_parent has
      ]

  -- If the structure and the address space are there, a process number is free, memory for the
  -- descriptors is found, and the driver of the console opens it, at a place of the file table that no
  -- one works on or has alone and whose count of holders does not overflow: `proc_create` returns the
  -- process. `proc_get` finds it under its number, and its descriptors 0, 1 and 2 have the console at
  -- offset 0, the first for reading and the others for writing; a fourth is unused.
  pub create-streams :
      (answers : ℕ → Bool) (numbered : Bool) (console proc parent vmm cloned k idx : ℕ)
      (s : Procs S)
      → proc ≢ 0
      → cloned ≢ 0
      → find_null s.pidtab < length s.pidtab
      → console ≢ 0
      → 0 < k
      → k + 3 < refs_mod
      → ((read write : Bool) (s : S) → (ops.on_open console read write s).0 ≡ true)
      → Shared console k idx s.files
      → (t : Procs S) × (create ops node_length
            (λ n. (answers n, true))
            numbered
            console
            proc
            parent
            vmm
            cloned
            s
          ≡ returns proc t)
        × ((t.procs proc).fds
            ≡ stream idx true false ∷ stream idx false true ∷ stream idx false true ∷ no_fd ∷ [])
        × (proc_get (t.procs proc).pid t ≡ proc)
  unfolding create proc_get Has
  create-streams answers numbered console proc parent vmm cloned k idx s there copied room real held
        few ok shared =
      let self : (proc == proc) ≡ true = ground arith in
      let begun = with_proc proc (new_proc vmm cloned) s in
      let (number, has, same) = pid_alloc-Has numbered proc begun room (rw self refl) in
      let made : (proc == 0 || (vmm != 0 && cloned == 0)) ≡ false = ground arith in
      let (u, opened, has_u) =
        open_streams-Has answers proc console k idx (pid_alloc numbered proc begun).1 real held few
          ok has (rw same shared) in
      let (fds, low, found) = Has-parent proc _ parent u has_u in
      let t =
        if parent != 0
        then with_proc proc (record (u.procs proc) { parent_pid = (u.procs parent).pid }) u
        else u in
      let inside : ltb (t.procs proc).pid (length t.pidtab) ≡ true = ground arith in
      (t, rw (create, number, made, opened) refl, fds, rw inside found)
