-- ===== src/Exec/Syms.antt =====
-- exec/syms.c, tables of symbols. A name is its characters before the NUL; the buffer of a symbol has
-- room for 47 of them. A table is known by its contents.
pub mod Resolve
mod Tests
use sysx.Base.{
  ℕ, zero, suc, ◌+◌, ◌-◌, ◌*◌, Bool, true, false, not, ◌&&◌, ◌||◌, Option, none, some, List, [],
  ◌∷◌, ◌++◌, ltb, ◌==◌, ◌!=◌, if◌then◌else◌, length, get_or, set, take, sub_size,
}

pub record SymEntry : Type 0 where
  pub name : List ℕ
  pub addr : ℕ

-- `sym_table_t`; the list has the `count` entries in use.
pub record SymTable : Type 0 where
  pub syms : List SymEntry
  pub max_count : ℕ

abbrev pub name_maxlen : ℕ
name_maxlen = 47

abbrev pub alloc_min : ℕ
alloc_min = 4

-- `sym_new_table`, for a count and whether the two allocations succeed; a failure of the second leaves
-- a table without room.
pub new_table : ℕ → Bool → Bool → Option SymTable
new_table initial_count allocated allocated_syms =
    let count = if ltb initial_count alloc_min then alloc_min else initial_count in
    if allocated
    then some (record { syms = []; max_count = if allocated_syms then count else 0 })
    else none

-- `!memcmp(a, b, n)` for two strings: behind its end a string has its NUL, and what follows is not
-- reached, since the other string ends there too or differs.
pub same_bytes : ℕ → List ℕ → List ℕ → Bool
same_bytes zero a b = true
same_bytes (suc n) [] [] = true
same_bytes (suc n) [] (d ∷ ds) = false
same_bytes (suc n) (c ∷ cs) [] = false
same_bytes (suc n) (c ∷ cs) (d ∷ ds) = c == d && same_bytes n cs ds

-- The index of the first entry with the name: `name_len + 1` bytes are compared.
pub find_sym : List SymEntry → ℕ → List ℕ → Option ℕ
unfolding same_bytes
find_sym [] n name = none
find_sym (e ∷ es) n name =
    let rest = find_sym es n name in
    if same_bytes n e.name name then some 0 else elim rest [ none ↦ none | some i ↦ some (i + 1) ]

pub resolve : SymTable → List ℕ → Option ℕ
unfolding find_sym
resolve t name =
    let name_len = if ltb name_maxlen (length name) then name_maxlen else length name in
    find_sym t.syms (name_len + 1) name

-- The name that is stored: at most 47 characters of it.
abbrev pub stored : List ℕ → List ℕ
stored name = if ltb name_maxlen (length name) then take name_maxlen name else name

-- `sym_add_entry`: the index of the entry, or `none` for null; `allocated` is the success of
-- `krealloc`.
pub add_entry : Bool → SymTable → List ℕ → ℕ → Option ℕ × SymTable
unfolding resolve
add_entry allocated t name addr =
    let e : SymEntry = record { name = stored name; addr = addr } in
    elim (resolve t name) [
      | some i ↦ (some i, record t { syms = set t.syms i e })
      | none ↦
          if length t.syms != t.max_count
          then (some (length t.syms), record t { syms = t.syms ++ (e ∷ []) })
          else if not allocated
          then (none, t)
          else (
            some (length t.syms),
            record { syms = t.syms ++ (e ∷ []); max_count = t.max_count + alloc_min },
          )
    ]

-- The loop of `sym_addr2sym`, with the index looked at, and the index and the distance found so far.
pub nearest : List SymEntry → ℕ → ℕ → Option (ℕ × ℕ) → Option (ℕ × ℕ)
nearest [] i addr best = best
nearest (e ∷ es) i addr best =
    let delta = sub_size addr e.addr in
    let better = elim best as (λ x. Option (ℕ × ℕ)) [
      | none ↦ some (i, delta)
      | some (j, d) ↦ if ltb delta d then some (i, delta) else some (j, d)
    ] in
    let rest = nearest es (i + 1) addr better in if ltb addr e.addr then best else rest

-- `sym_addr2sym`; `none` also for a failed allocation of the result.
pub addr2sym : Bool → SymTable → ℕ → Option (ℕ × ℕ)
unfolding nearest
addr2sym allocated t addr = if allocated then nearest t.syms 0 addr none else none

-- `sym_merge`; `allocated` tells for each entry whether `krealloc` succeeds, should it be called.
pub merge : (ℕ → Bool) → SymTable → ℕ → List SymEntry → SymTable
unfolding add_entry
merge allocated dest i [] = dest
merge allocated dest i (e ∷ es) =
    merge allocated (add_entry (allocated i) dest e.name e.addr).1 (i + 1) es
