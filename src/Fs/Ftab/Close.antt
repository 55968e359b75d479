-- ===== src/Fs/Ftab/Close.antt =====
-- `ftab_close`, and what the table does with an entry once it is open.
use sysx.Base.{
  Bool-cases, ℕ, zero, suc, ◌+◌, ◌-◌, ◌%◌, ◌<◌, ◌≡◌, ◌≢◌, ◌⊎◌, inl, inr, ap, sym, ◌∙◌, refl, Bool,
  true, false, ◌&&◌, none, some, List, [], ◌∷◌, arith, ◌==◌, ◌!=◌, if◌then◌else◌, length, get_or,
  set, get_or-set_self,
}
use sysx.Fs.Ftab.{
  Entry, blank, Ftab, FileOps, waits, returns, refs_mod, find, make_room, open_first, open_file,
  close_file, read_file,
}
use sysx.Fs.Ftab.Room.{IsSound, get_or-IsEntry}

set-set : (es : List Entry) (i : ℕ) (e g : Entry) → set (set es i e) i g ≡ set es i g
set-set [] i e g = refl
set-set (x ∷ xs) zero e g = refl
set-set (x ∷ xs) (suc i) e g = ap (λ ys. x ∷ ys) (set-set xs i e g)

set_same : (es : List Entry) (i : ℕ) → set es i (get_or es i blank) ≡ es
set_same [] i = refl
set_same (x ∷ xs) zero = refl
set_same (x ∷ xs) (suc i) = ap (λ ys. x ∷ ys) (set_same xs i)

module _ {S : Type 0} (ops : FileOps S) where
  -- Closing waits for no one while the entry is not worked on.
  pub close_file-returns :
      (f proc : ℕ) (t : Ftab S)
      → (get_or t.entries f blank).locked ≡ false
      → (u : Ftab S) × (close_file ops f proc t ≡ returns tt u)
  unfolding close_file
  close_file-returns f proc t free =
      let e = get_or t.entries f blank in
      elim (Bool-cases (e.excl != 0 && e.excl != proc)) [
        | inl barred ↦ (t, rw barred)
        | inr own ↦ elim (Bool-cases ((e.refs + refs_mod - 1) % refs_mod == 0)) [
          | inl last ↦ (
            record t { entries = set t.entries f blank; files = ops.on_close e.node t.files },
            rw (own, free, last),
          )
          | inr more ↦ (
            record t {
              entries = set t.entries f (record e { refs = (e.refs + refs_mod - 1) % refs_mod });
            },
            rw (own, free, more),
          )
        ]
      ]

  -- The last holder gives the entry back.
  close_last :
      (t : Ftab S) (idx proc : ℕ)
      → ((get_or t.entries idx blank).excl ≡ 0) ⊎ ((get_or t.entries idx blank).excl ≡ proc)
      → (get_or t.entries idx blank).locked ≡ false
      → (get_or t.entries idx blank).refs ≡ 1
      → close_file ops idx proc t
        ≡ returns tt (record t {
          entries = set t.entries idx blank;
          files = ops.on_close (get_or t.entries idx blank).node t.files;
        })
  unfolding close_file
  close_last t idx proc mine free one =
      let own : ((get_or t.entries idx blank).excl != 0
            && (get_or t.entries idx blank).excl != proc)
          ≡ false =
        elim mine [ inl e ↦ rw e | inr e ↦ ground (arith, e) ] in
      rw (own, free, one)

  -- What the first opening of a node, in a blank entry, took, `ftab_close` of the entry by the same
  -- process gives back, if `vfs_open` succeeds: the entries are as before, the node is closed after
  -- it was opened, and no mutex is held.
  pub close-open_first :
      (es : List Entry) (idx node proc : ℕ) (read write excl : Bool) (s : S)
      → idx < length es
      → get_or es idx blank ≡ blank
      → (ops.on_open node read write s).0 ≡ true
      → (t : Ftab S) × (open_first ops es idx node proc read write excl s ≡ returns (some idx) t)
        × (close_file ops idx proc t
            ≡ returns tt (record {
              entries = es;
              locked = false;
              files = ops.on_close node (ops.on_open node read write s).1;
            }))
  unfolding open_first
  close-open_first es idx node proc read write excl s lt empty ok =
      let e : Entry = record {
        node = node;
        read = read;
        write = write;
        refs = 1;
        excl = if excl then proc else 0;
        locked = false;
      } in
      let t : Ftab S = record {
        entries = set es idx e;
        locked = false;
        files = (ops.on_open node read write s).1;
      } in
      let here : get_or (set es idx e) idx blank ≡ e = get_or-set_self es idx e blank lt in
      let restored : set (set es idx e) idx blank ≡ es =
        set-set es idx e blank ∙ ap (set es idx) (sym empty) ∙ set_same es idx in
      (
        t,
        rw ok,
        close_last t idx proc (rw here (holder excl)) (rw here) (rw here) ∙ rw (restored, here),
      )
    where
      holder : (b : Bool) → ((if b then proc else 0) ≡ 0) ⊎ ((if b then proc else 0) ≡ proc)
      holder true = inr refl
      holder false = inl refl

  -- In a well-formed table `ftab_read` gives the same through any two entries that allow reading
  -- and are not held exclusively: it reads the node of the table's first entry.
  pub read_file-first :
      (t : Ftab S) (i j proc offset size : ℕ)
      → IsSound t.entries
      → (get_or t.entries i blank).read ≡ true
      → (get_or t.entries j blank).read ≡ true
      → (get_or t.entries i blank).excl ≡ 0
      → (get_or t.entries j blank).excl ≡ 0
      → read_file ops i proc offset size t ≡ read_file ops j proc offset size t
  unfolding read_file
  read_file-first t i j proc offset size sound ri rj ei ej =
      rw
        (ri, rj, ei, ej, (get_or-IsEntry t.entries i sound).0, (get_or-IsEntry t.entries j sound).0)

  -- After a first opening of a node that failed, in an unused entry of a table whose mutex is free,
  -- every later `ftab_open` waits for the mutex that it left held.
  pub open_file-waits :
      (allocated : Bool) (node proc : ℕ) (read write excl : Bool) (t : Ftab S)
      → t.locked ≡ false
      → find t.entries node < length t.entries
      → get_or t.entries (find t.entries node) blank ≡ blank
      → (ops.on_open node read write t.files).0 ≡ false
      → (u : Ftab S) × (open_file ops allocated node proc read write excl t ≡ returns none u)
        × ((allocated' : Bool) (node' proc' : ℕ) (read' write' excl' : Bool)
            → open_file ops allocated' node' proc' read' write' excl' u ≡ waits)
  unfolding open_file open_first make_room
  open_file-waits allocated node proc read write excl t free inside empty failed =
      let idx = find t.entries node in
      let u : Ftab S = record {
        entries = set t.entries idx (record blank { locked = true });
        locked = true;
        files = (ops.on_open node read write t.files).1;
      } in
      let room : (idx == length t.entries) ≡ false = ground arith in
      (u, rw (free, room, empty, failed), λ a n p r w x. refl)

  -- With an unused first entry and a second one that holds the node exclusively for another
  -- process, an exclusive `ftab_open` of the node succeeds if `vfs_open` does: both entries then
  -- hold it exclusively, for two processes.
  pub open_file-twice :
      (allocated : Bool) (node proc : ℕ) (read write : Bool) (e : Entry) (es : List Entry) (s : S)
      → e.node ≡ node
      → e.excl ≢ 0
      → e.excl ≢ proc
      → (ops.on_open node read write s).0 ≡ true
      → (t : Ftab S) × (open_file ops allocated node proc read write true
            (record { entries = blank ∷ e ∷ es; locked = false; files = s })
          ≡ returns (some 0) t)
        × ((get_or t.entries 0 blank).node ≡ node)
        × ((get_or t.entries 1 blank).node ≡ node)
        × ((get_or t.entries 0 blank).excl ≡ proc)
        × ((get_or t.entries 1 blank).excl ≢ proc)
  unfolding open_file open_first make_room find
  open_file-twice allocated node proc read write e es s at held other ok =
      let room : (0 == length (blank ∷ e ∷ es)) ≡ false = ground arith in
      let first : Entry = record {
        node = node;
        read = read;
        write = write;
        refs = 1;
        excl = proc;
        locked = false;
      } in
      (
        record {
          entries = first ∷ e ∷ es;
          locked = false;
          files = (ops.on_open node read write s).1;
        },
        rw (room, ok),
        refl,
        at,
        refl,
        other,
      )
