-- ===== src/Fs/Ftab/Tests.antt =====
-- A table with an unused entry before one that is held, on files that always open.
use sysx.Base.{ℕ, ◌+◌, ◌≡◌, inl, inr, refl, Bool, true, false, none, some, [], ◌∷◌, arith, ltb}
use sysx.Fs.Ftab.{
  Entry, blank, Ftab, FileOps, waits, returns, find, open_first, open_file, close_file,
}
use sysx.Fs.Ftab.Room.{IsSound}
use sysx.Fs.Ftab.Open.{Opened, open_file-Opened}
use sysx.Fs.Ftab.Close.{close-open_first, open_file-waits}

-- The state counts the calls; a node below 100 opens, and a read gives the node.
abbrev files : FileOps ℕ
files = record {
  on_open = λ node read write s. (ltb node 100, s + 1);
  on_close = λ node s. s + 1;
  on_read = λ node offset size s. (node, s);
  on_write = λ node offset size s. (node, s);
}

abbrev held : Entry
held = record { node = 8; read = true; write = false; refs = 1; excl = 2; locked = false }

abbrev shared : Entry
shared = record { node = 7; read = true; write = false; refs = 2; excl = 0; locked = false }

abbrev other : Entry
other = record { node = 9; read = true; write = true; refs = 1; excl = 0; locked = false }

abbrev table : Ftab ℕ
table = record { entries = shared ∷ other ∷ blank ∷ held ∷ []; locked = false; files = 0 }

table-IsSound : IsSound table.entries
table-IsSound = (
  (refl, inr (omega arith, omega arith, omega arith)),
  (
    (refl, inr (omega arith, omega arith, omega arith)),
    ((refl, inl refl), ((refl, inr (omega arith, omega arith, omega arith)), tt)),
  ),
)

open_file-Opened_example :
    Opened files 7 1 true true false table.entries 0
      (open_file files true 7 1 true true false table)
unfolding find
open_file-Opened_example =
    open_file-Opened files true 7 1 true true false table table-IsSound refl (omega arith)
      (omega arith)

close-open_first_example :
    (t : Ftab ℕ) × (open_first files table.entries 2 5 1 true false true 0 ≡ returns (some 2) t)
    × (close_file files 2 1 t
        ≡ returns tt (record { entries = table.entries; locked = false; files = 2 }))
close-open_first_example =
    close-open_first files table.entries 2 5 1 true false true 0 (omega arith) refl refl

open_file-waits_example :
    (u : Ftab ℕ) × (open_file files true 100 1 true false false table ≡ returns none u)
    × ((allocated' : Bool) (node' proc' : ℕ) (read' write' excl' : Bool)
        → open_file files allocated' node' proc' read' write' excl' u ≡ waits)
unfolding find
open_file-waits_example =
    open_file-waits files true 100 1 true false false table refl (omega arith) refl refl
