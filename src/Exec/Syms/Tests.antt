-- ===== src/Exec/Syms/Tests.antt =====
-- A table with one symbol and room for another.
use sysx.Base.{◌≡◌, ◌⊎◌, refl, true, none, some, [], ◌∷◌, arith, replicate}
use sysx.Exec.Syms.{SymTable, add_entry, resolve, addr2sym}
use sysx.Exec.Syms.Resolve.{resolve-add_entry}

abbrev table : SymTable
table = record { syms = record { name = b'a' ∷ []; addr = 100 } ∷ []; max_count = 4 }

nearest_runs : addr2sym true table 104 ≡ some (0, 4)
unfolding addr2sym
nearest_runs = refl

-- A name of 48 characters is stored and not found.
long_name : resolve (add_entry true table (replicate 48 b'x') 7).1 (replicate 48 b'x') ≡ none
unfolding add_entry resolve
long_name = refl

resolve-add_entry_example :
    let (i, r) = add_entry true table (b'b' ∷ []) 200 in
    (resolve r (b'b' ∷ []) ≡ i) ⊎ ((i ≡ none) × (r ≡ table))
resolve-add_entry_example = resolve-add_entry true table (b'b' ∷ []) 200 (omega arith)
