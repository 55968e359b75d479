-- ===== src/Mm/Vmm/Reference.antt =====
-- `vmm_cow_duplicate` and `vmm_trap_remove`: the source of a resolved page, and the second order for
-- an address.
use sysx.Base.{
  ℕ, zero, suc, ◌+◌, ◌-◌, ◌%◌, ◌<◌, ◌≡◌, ◌≢◌, refl, inl, inr, true, false, not, ◌&&◌, ◌||◌, some,
  List, [], ◌∷◌, arith, ltb, ◌==◌, ◌!=◌, length, get_or, size_max, Bool-cases,
}
use sysx.Mm.Vmm.{Target}
use sysx.Mm.Vmm.Traps.{is_cow_type, is_cow_of, Trap, no_entry, returns}
use sysx.Mm.Vmm.Cow.{Space, page_bytes, setup_from, cow_setup}
use sysx.Mm.Vmm.Fault.{find_reference, Resolved, find_resolved, drop_pair, remove_from}

find_reference-at :
    (xs : List Trap) (i d src vmm vaddr : ℕ)
    → d < length xs
    → i + d ≢ src
    → is_cow_of vmm vaddr (get_or xs d no_entry) ≡ true
    → (j : ℕ) × (find_reference xs i src vmm vaddr ≡ some j)
unfolding find_reference
find_reference-at [] i d src vmm vaddr lt ne h = elim lt [ ]
find_reference-at (x ∷ xs) i zero src vmm vaddr lt ne h =
    let hit : i != src && is_cow_of vmm vaddr x ≡ true = ground arith in
    (i, rw (find_reference, hit) refl)
find_reference-at (x ∷ xs) i (suc d) src vmm vaddr lt ne h =
    elim (Bool-cases (i != src && is_cow_of vmm vaddr x)) [
      | inl hit ↦ (i, rw (find_reference, hit) refl)
      | inr miss ↦
          let (j, e) =
            find_reference-at xs (i + 1) d src vmm vaddr (omega arith) (λ q. ne (omega arith)) h in
          (j, rw (find_reference, miss) e)
    ]

-- The search of `vmm_cow_duplicate` for another order on the source always succeeds: the entry of the
-- page that is being resolved is one that it accepts. So the source is made writable in any case.
pub find_reference-found :
    (xs : List Trap) (dst src vmm vaddr : ℕ)
    → dst < length xs
    → dst ≢ src
    → is_cow_of vmm vaddr (get_or xs dst no_entry) ≡ true
    → (j : ℕ) × (find_reference xs 0 src vmm vaddr ≡ some j)
find_reference-found xs dst src vmm vaddr lt ne h =
    find_reference-at xs 0 dst src vmm vaddr lt (λ e. ne (omega arith)) h

module _ {S : Type 0} (t : Target S) where
  setup_from-mapped :
      (fuel vmm_src vaddr_src vmm_dst vaddr_dst size : ℕ) (x : Space S)
      → t.get_pgsz x.vm vmm_dst vaddr_dst ≢ size_max
      → setup_from t (suc fuel) vmm_src vaddr_src vmm_dst vaddr_dst size 0 x ≡ some (returns (0, x))
  unfolding setup_from
  setup_from-mapped fuel vmm_src vaddr_src vmm_dst vaddr_dst size x mapped =
      let stop : not (ltb 0 size)
            || t.get_pgsz x.vm vmm_src vaddr_src == size_max
            || t.get_pgsz x.vm vmm_dst vaddr_dst != size_max
          ≡ true =
        ground arith in
      rw (setup_from, stop) refl

  -- A destination that is mapped is left alone.
  cow_setup-mapped :
      (fuel vmm_src vaddr_src vmm_dst vaddr_dst size : ℕ) (x : Space S)
      → vaddr_dst % 4096 ≡ 0
      → t.get_pgsz x.vm vmm_dst vaddr_dst ≢ size_max
      → cow_setup t (suc fuel) vmm_src vaddr_src vmm_dst vaddr_dst size x ≡ some (returns (0, x))
  unfolding cow_setup
  cow_setup-mapped fuel vmm_src vaddr_src vmm_dst vaddr_dst size x aligned mapped =
      let e : vaddr_dst - vaddr_dst % 4096 ≡ vaddr_dst = omega arith in
      setup_from-mapped fuel vmm_src (vaddr_src - vaddr_src % 4096) vmm_dst
        (vaddr_dst - vaddr_dst % 4096) _ x (rw e mapped)

  -- If `vmm_trap_remove` meets a second order from the address space for an address whose order it has
  -- resolved before, and the page of the order is mapped, it gives up: its loop ends with false at
  -- once, with the pair deleted, whatever entries are left.
  pub remove_from-fails :
      (fuel vmm i left : ℕ) (done : List Resolved) (r : Resolved) (x : Space S)
      → let e = get_or x.traps.traps i no_entry in
        is_cow_type e.kind ≡ true
        → (get_or x.traps.traps e.info no_entry).vmm ≡ vmm
        → find_resolved done e.vaddr ≡ some r
        → e.vaddr % 4096 ≡ 0
        → t.get_pgsz x.vm e.vmm e.vaddr ≢ size_max
        → remove_from t (suc fuel) vmm i (suc left) done x ≡ some (returns (false, drop_pair t i x))
  unfolding remove_from
  remove_from-fails fuel vmm i left done r x kind from found aligned mapped =
      let e = get_or x.traps.traps i no_entry in
      let here : ((get_or x.traps.traps e.info no_entry).vmm == vmm) ≡ true = ground arith in
      let there : (t.get_pgsz x.vm e.vmm e.vaddr == size_max) ≡ false = ground arith in
      let fails =
        cow_setup-mapped fuel r.1 r.2 e.vmm e.vaddr (page_bytes (t.get_pgsz x.vm e.vmm e.vaddr))
          (drop_pair t i x) aligned mapped in
      rw (remove_from, kind, here, found, there, fails) refl
