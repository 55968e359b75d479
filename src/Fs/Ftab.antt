-- ===== src/Fs/Ftab.antt =====
-- fs/ftab.c, the table of open files. An entry is known by its index, a node or a process by its
-- address, 0 is the null pointer. `S` is the state of the file system behind the table.
pub mod Room
pub mod Open
pub mod Close
pub mod Shared
mod Tests
use sysx.Base.{
  ℕ, zero, suc, ◌+◌, ◌-◌, ◌%◌, ◌^◌, Bool, true, false, not, ◌&&◌, ◌||◌, Option, none, some, List,
  [], ◌∷◌, ◌++◌, ◌==◌, ◌!=◌, if◌then◌else◌, length, get_or, set, replicate,
}

-- `struct ftab`; `refs` has 30 bits.
pub record Entry : Type 0 where
  pub node : ℕ
  pub read : Bool
  pub write : Bool
  pub refs : ℕ
  pub excl : ℕ
  pub locked : Bool

-- What `memset` to 0 makes of an entry.
abbrev pub blank : Entry
blank = record { node = 0; read = false; write = false; refs = 0; excl = 0; locked = false }

-- The variables of ftab.c: the table, and whether `ftab_mutex` is held.
pub record Ftab (S : Type 0) : Type 0 where
  pub entries : List Entry
  pub locked : Bool
  pub files : S

-- The calls of vfs.c.
pub record FileOps (S : Type 0) : Type 0 where
  pub on_open : ℕ → Bool → Bool → S → Bool × S
  pub on_close : ℕ → S → S
  pub on_read : ℕ → ℕ → ℕ → S → ℕ × S
  pub on_write : ℕ → ℕ → ℕ → S → ℕ × S

-- A call returns, or waits for a mutex that is held.
pub data Result (T A : Type 0) : Type 0 where
  waits : Result T A
  returns : A → T → Result T A

abbrev pub allocsz : ℕ
allocsz = 4

abbrev pub differs : Bool → Bool → Bool
differs a b = if a then not b else b

abbrev pub refs_mod : ℕ
refs_mod = 2 ^ 30

-- The first index with no node or with this one, or the length.
unfoldable pub find : List Entry → ℕ → ℕ
find [] node = 0
find (e ∷ es) node =
    let rest = find es node + 1 in if e.node == 0 || e.node == node then 0 else rest

-- The table with room for the index; `none` if `krealloc` fails.
pub make_room : Bool → List Entry → ℕ → Option (List Entry)
make_room allocated es idx =
    if idx == length es
    then (if allocated then some (es ++ replicate allocsz blank) else none)
    else some es

module _ {S : Type 0} (ops : FileOps S) where
  -- An empty entry: the first opening. If it fails, both mutexes stay held.
  pub open_first : List Entry → ℕ → ℕ → ℕ → Bool → Bool → Bool → S → Result (Ftab S) (Option ℕ)
  open_first es idx node proc read write excl s =
      let (opened, s') = ops.on_open node read write s in
      if not opened
      then returns none (record {
        entries = set es idx (record (get_or es idx blank) { locked = true });
        locked = true;
        files = s';
      })
      else returns (some idx) (record {
        entries = set es idx (record {
          node = node;
          read = read;
          write = write;
          refs = 1;
          excl = if excl then proc else 0;
          locked = false;
        });
        locked = false;
        files = s';
      })

  -- An entry in use.
  pub open_again : List Entry → ℕ → ℕ → ℕ → Bool → Bool → Bool → S → Result (Ftab S) (Option ℕ)
  open_again es idx node proc read write excl s =
      let e = get_or es idx blank in
      let read' = read || e.read in
      let write' = write || e.write in
      let (opened, s') = ops.on_open node read' write' s in
      let more = (e.refs + 1) % refs_mod in
      if e.excl != 0 && e.excl != proc
      then returns none (record { entries = es; locked = false; files = s })
      else if excl && e.refs != 0
      then returns none (record { entries = es; locked = false; files = s })
      else if not (differs read' e.read || differs write' e.write)
      then returns (some idx)
          (record { entries = set es idx (record e { refs = more }); locked = false; files = s })
      else (if not opened
          then returns none (record { entries = es; locked = false; files = s' })
          else returns (some idx) (record {
            entries = set es idx (record e { read = read'; write = write'; refs = more });
            locked = false;
            files = s';
          }))

  -- `ftab_open`; `allocated` is the success of `krealloc`, should it be called.
  pub open_file : Bool → ℕ → ℕ → Bool → Bool → Bool → Ftab S → Result (Ftab S) (Option ℕ)
  open_file allocated node proc read write excl t =
      let idx = find t.entries node in
      if t.locked then waits else (elim (make_room allocated t.entries idx) [
        | none ↦ returns none (record t { locked = false })
        | some es ↦
            if (get_or es idx blank).locked
            then waits
            else if (get_or es idx blank).node == 0
            then open_first es idx node proc read write excl t.files
            else open_again es idx node proc read write excl t.files
      ])

  pub close_file : ℕ → ℕ → Ftab S → Result (Ftab S) Unit
  close_file idx proc t =
      let e = get_or t.entries idx blank in
      let fewer = (e.refs + refs_mod - 1) % refs_mod in
      if e.excl != 0 && e.excl != proc
      then returns tt t
      else if e.locked
      then waits
      else if fewer == 0
      then returns tt
          (record t { entries = set t.entries idx blank; files = ops.on_close e.node t.files })
      else returns tt (record t { entries = set t.entries idx (record e { refs = fewer }) })

  -- `ftab_read` hands the node of the first entry, `ftab->node`, to `vfs_read`.
  pub read_file : ℕ → ℕ → ℕ → ℕ → Ftab S → Result (Ftab S) ℕ
  read_file idx proc offset size t =
      let e = get_or t.entries idx blank in
      let (ret, s) = ops.on_read (get_or t.entries 0 blank).node offset size t.files in
      if e.locked
      then waits
      else if (e.excl == 0 || e.excl == proc) && e.read
      then returns ret (record t { files = s })
      else returns 0 t

  pub write_file : ℕ → ℕ → ℕ → ℕ → Ftab S → Result (Ftab S) ℕ
  write_file idx proc offset size t =
      let e = get_or t.entries idx blank in
      let (ret, s) = ops.on_write (get_or t.entries 0 blank).node offset size t.files in
      if e.locked
      then waits
      else if (e.excl == 0 || e.excl == proc) && e.write
      then returns ret (record t { files = s })
      else returns 0 t
