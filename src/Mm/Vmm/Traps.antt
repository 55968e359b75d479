-- ===== src/Mm/Vmm/Traps.antt =====
-- mm/vmm.c: the list of page traps, and the address spaces that wait to be freed. Entries are known by
-- their index, as if `krealloc` left the array where it is. A call returns, or waits for a mutex that
-- is held.
use sysx.Base.{
  ℕ, ◌+◌, ◌-◌, ◌%◌, Bool, true, false, not, ◌&&◌, Option, none, some, List, [], ◌∷◌, ◌++◌, ◌==◌,
  ◌!=◌, if◌then◌else◌, length, get_or, set, replicate, size_max,
}
use sysx.Mm.Vmm.{Target, pgsz}

-- `enum vmm_trap_type`.
pub data TrapType : Type 0 where
  no_trap cow : TrapType

abbrev pub is_cow_type : TrapType → Bool
is_cow_type no_trap = false
is_cow_type cow = true

-- `vmm_trap_t`; `info` is the index of the other entry of a copy-on-write pair.
pub record Trap : Type 0 where
  pub kind : TrapType
  pub vmm : ℕ
  pub vaddr : ℕ
  pub info : ℕ

abbrev pub no_entry : Trap
no_entry = record { kind = no_trap; vmm = 0; vaddr = 0; info = 0 }

pub record Traps : Type 0 where
  pub traps : List Trap
  pub locked : Bool

pub data Call (A : Type 0) : Type 0 where
  waits : Call A
  returns : A → Call A

abbrev pub trap_allocsz : ℕ
trap_allocsz = 4

-- The first index without a trap, or the length.
unfoldable pub find_unused : List Trap → ℕ
find_unused [] = 0
find_unused (x ∷ xs) = let rest = find_unused xs + 1 in if is_cow_type x.kind then rest else 0

-- The entry is filled in; `info` keeps what it was.
abbrev pub fill : TrapType → ℕ → ℕ → Trap → Trap
fill kind vmm vaddr x = record x { kind = kind; vmm = vmm; vaddr = vaddr }

-- `vmm_new_trap`; a new array leaves the `info` of its first new entry as it was allocated, here 0.
unfoldable pub new_trap : Bool → ℕ → ℕ → TrapType → Traps → Call (Option ℕ × Traps)
unfolding find_unused
new_trap allocated vmm vaddr kind t =
    let i = find_unused t.traps in
    if t.locked
    then waits
    else if i != length t.traps
    then returns (
      some i,
      record t { traps = set t.traps i (fill kind vmm vaddr (get_or t.traps i no_entry)) },
    )
    else if not allocated
    then returns (none, t)
    else returns (
      some i,
      record t {
        traps = t.traps ++ (fill kind vmm vaddr no_entry ∷ replicate (trap_allocsz - 1) no_entry);
      },
    )

-- `vmm_delete_trap`, which does not take the mutex; `none` is the null pointer.
unfoldable pub delete_trap : Option ℕ → List Trap → List Trap
delete_trap none xs = xs
delete_trap (some i) xs = set xs i (record (get_or xs i no_entry) { kind = no_trap })

abbrev pub is_cow_of : ℕ → ℕ → Trap → Bool
is_cow_of vmm vaddr x = is_cow_type x.kind && x.vmm == vmm && x.vaddr == vaddr

-- The first copy-on-write entry for a page.
unfoldable pub find_cow : List Trap → ℕ → ℕ → Option ℕ
find_cow [] vmm vaddr = none
find_cow (x ∷ xs) vmm vaddr =
    let rest = find_cow xs vmm vaddr in
    if is_cow_of vmm vaddr x then some 0 else elim rest [ none ↦ none | some i ↦ some (i + 1) ]

-- `vmm_is_cow`.
unfoldable pub is_cow : {S : Type 0} → Target S → S → ℕ → ℕ → Bool → Traps → Call (Option ℕ)
unfolding find_cow
is_cow t s vmm vaddr validated x =
    let idx = t.get_pgsz s vmm vaddr in
    let at = if validated then vaddr else vaddr - vaddr % pgsz idx in
    if not validated && idx == size_max
    then returns none
    else if x.locked
    then waits
    else returns (find_cow x.traps vmm at)

-- `vmm_frstage`: addresses of address spaces, 0 for a free place.
pub record Stage : Type 0 where
  pub staged : List ℕ
  pub locked : Bool

unfoldable pub find_zero : List ℕ → ℕ
find_zero [] = 0
find_zero (x ∷ xs) = let rest = find_zero xs + 1 in if x == 0 then 0 else rest

-- `vmm_stage_free`.
unfoldable pub stage_free : Bool → ℕ → Stage → Call Stage
unfolding find_zero
stage_free allocated vmm st =
    let i = find_zero st.staged in
    if st.locked
    then waits
    else if i != length st.staged
    then returns (record st { staged = set st.staged i vmm })
    else if not allocated
    then returns st
    else returns (record st { staged = st.staged ++ (vmm ∷ replicate 3 0) })

-- The loop of `vmm_do_cleanup`: which address spaces are freed, in order, and what stays.
unfoldable pub clean_from : ℕ → List ℕ → List ℕ × List ℕ
clean_from current [] = ([], [])
clean_from current (x ∷ xs) =
    let (freed, rest) = clean_from current xs in
    if x != 0 && x != current then (x ∷ freed, 0 ∷ rest) else (freed, x ∷ rest)

-- `vmm_do_cleanup`, which gives up if the mutex is held.
unfoldable pub do_cleanup : ℕ → Stage → List ℕ × Stage
unfolding clean_from
do_cleanup current st =
    let (freed, rest) = clean_from current st.staged in
    if st.locked then ([], st) else (freed, record st { staged = rest })
