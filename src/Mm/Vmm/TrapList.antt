-- ===== src/Mm/Vmm/TrapList.antt =====
-- The list of traps: what `vmm_new_trap` puts in, `vmm_is_cow` finds.
use sysx.Base.{
  ℕ, zero, suc, ◌+◌, ◌-◌, ◌<◌, ◌≤◌, ◌≡◌, ◌≢◌, refl, ◌∙◌, inl, inr, Bool, true, false, not, Option,
  none, some, List, [], ◌∷◌, ◌++◌, arith, ◌!=◌, length, get_or, set, replicate, get_or-set_self,
  get_or-set_ne, get_or-append_left, get_or-append_right, length-set, length-append, Bool-cases,
  sym, dec_lt, get_or-replicate, get_or_past, if_both,
}
use sysx.Mm.Vmm.{Target}
use sysx.Mm.Vmm.Traps.{
  cow, Trap, no_entry, Traps, Call, waits, returns, trap_allocsz, find_unused, fill, new_trap,
  is_cow_of, find_cow, is_cow,
}

-- An entry that matches is found, or one before it.
find_cow-found :
    (xs : List Trap) (i vmm vaddr : ℕ)
    → i < length xs
    → is_cow_of vmm vaddr (get_or xs i no_entry) ≡ true
    → (j : ℕ) × (find_cow xs vmm vaddr ≡ some j)
      × (j ≤ i)
      × (is_cow_of vmm vaddr (get_or xs j no_entry) ≡ true)
unfolding find_cow
find_cow-found [] i vmm vaddr lt h = elim lt [ ]
find_cow-found (x ∷ xs) zero vmm vaddr lt h = (0, rw (find_cow, h) refl, omega arith, h)
find_cow-found (x ∷ xs) (suc i) vmm vaddr lt h = elim (Bool-cases (is_cow_of vmm vaddr x)) [
  | inl here ↦ (0, rw (find_cow, here) refl, omega arith, here)
  | inr there ↦
      let (j, e, le, match) = find_cow-found xs i vmm vaddr (omega arith) h in
      let n : j + 1 ≡ suc j = omega arith in
      (suc j, rw (find_cow, there, e, n) refl, omega arith, match)
]

find_unused-le : (xs : List Trap) → find_unused xs ≤ length xs
unfolding find_unused
find_unused-le [] = omega arith
find_unused-le (x ∷ xs) = ground (arith, find_unused-le xs)

is_cow_of-fill : (vmm vaddr : ℕ) (x : Trap) → is_cow_of vmm vaddr (fill cow vmm vaddr x) ≡ true
is_cow_of-fill vmm vaddr x = ground arith

-- What a call of `vmm_new_trap` leaves behind.
unfoldable pub Added : ℕ → ℕ → List Trap → Call (Option ℕ × Traps) → Type 0
Added vmm vaddr xs waits = ⊥
Added vmm vaddr xs (returns (none, t)) = t.traps ≡ xs
Added vmm vaddr xs (returns (some i, t)) =
    (t.locked ≡ false)
    × (i < length t.traps)
    × (is_cow_of vmm vaddr (get_or t.traps i no_entry) ≡ true)
    × ((j : ℕ) → j ≢ i → get_or t.traps j no_entry ≡ get_or xs j no_entry)

module _ (vmm vaddr : ℕ) (xs : List Trap) where
  Added-set :
      (i : ℕ) (x : Trap)
      → i < length xs
      → Added vmm vaddr xs
          (returns (some i, record { traps = set xs i (fill cow vmm vaddr x); locked = false }))
  unfolding Added
  Added-set i x lt = (
    refl,
    rw (length-set xs i (fill cow vmm vaddr x)) lt,
    rw (get_or-set_self xs i (fill cow vmm vaddr x) no_entry lt) (is_cow_of-fill vmm vaddr x),
    λ j ne. get_or-set_ne xs i j (fill cow vmm vaddr x) no_entry (λ e. ne (sym e)),
  )

  new_entries : List Trap
  new_entries = fill cow vmm vaddr no_entry ∷ replicate (trap_allocsz - 1) no_entry

  get_or-new_entries : (k : ℕ) → k ≢ 0 → get_or new_entries k no_entry ≡ no_entry
  unfolding new_entries
  get_or-new_entries zero ne = absurd (ne refl)
  get_or-new_entries (suc k) ne = get_or-replicate 3 k no_entry

  Added-append :
      Added vmm vaddr xs
        (returns (some (length xs), record { traps = xs ++ new_entries; locked = false }))
  unfolding Added new_entries
  Added-append =
      let z : length xs + 0 ≡ length xs = omega arith in
      let at : get_or (xs ++ new_entries) (length xs) no_entry ≡ fill cow vmm vaddr no_entry =
        rw z at (get_or-append_right xs new_entries 0 no_entry) in
      (
        refl,
        omega (arith, length-append xs new_entries),
        rw at (is_cow_of-fill vmm vaddr no_entry),
        λ j ne. elim (dec_lt j (length xs)) [
          | yes old ↦ get_or-append_left xs new_entries j no_entry old
          | no new ↦
              let e : length xs + (j - length xs) ≡ j = omega arith in
              let k = j - length xs in
              rw e at (get_or-append_right xs new_entries k no_entry)
              ∙ get_or-new_entries k (λ h. ne (omega arith))
              ∙ sym (get_or_past xs j no_entry (omega arith))
        ],
      )

-- While the mutex is free, `vmm_new_trap` for a copy-on-write page returns an entry that is one for
-- this page, and leaves every other entry as it was; or it returns null and has changed nothing.
pub new_trap-Added :
    (allocated : Bool) (vmm vaddr : ℕ) (xs : List Trap)
    → Added vmm vaddr xs (new_trap allocated vmm vaddr cow (record { traps = xs; locked = false }))
unfolding new_trap Added new_entries
new_trap-Added allocated vmm vaddr xs = elim (Bool-cases (find_unused xs != length xs)) [
  | inl room ↦
      let lt : find_unused xs < length xs = ground (arith, find_unused-le xs) in
      rw (new_trap, room)
        (Added-set vmm vaddr xs (find_unused xs) (get_or xs (find_unused xs) no_entry) lt)
  | inr full ↦
      let e : find_unused xs ≡ length xs = ground arith in
      rw (new_trap, full, e)
        (if_both (Added vmm vaddr xs) (not allocated) _ _ refl (Added-append vmm vaddr xs))
]

-- A copy-on-write page for which `vmm_new_trap` returned an entry is found by `vmm_is_cow`: at this
-- entry, or at an earlier one for the same page.
pub is_cow-new_trap :
    {S : Type 0} (t : Target S) (s : S) (allocated : Bool) (vmm vaddr i : ℕ) (xs : List Trap)
    (q : Traps)
    → new_trap allocated vmm vaddr cow (record { traps = xs; locked = false }) ≡ returns (some i, q)
    → (j : ℕ) × (is_cow t s vmm vaddr true q ≡ returns (some j))
      × (j ≤ i)
      × (is_cow_of vmm vaddr (get_or q.traps j no_entry) ≡ true)
unfolding is_cow Added
is_cow-new_trap t s allocated vmm vaddr i xs q e =
    let added : Added vmm vaddr xs (returns (some i, q)) =
      rw e at (new_trap-Added allocated vmm vaddr xs) in
    let (free, lt, match, others) = added in
    let (j, found, le, match') = find_cow-found q.traps i vmm vaddr lt match in
    (j, rw (is_cow, free, found) refl, le, match')
