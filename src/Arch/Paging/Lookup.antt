-- ===== src/Arch/Paging/Lookup.antt =====
-- An address is looked up in the directory and in one table.
use sysx.Base.{
  ℕ, ◌+◌, ◌*◌, ◌/◌, ◌%◌, ◌≡◌, ◌≢◌, refl, ◌∙◌, Bool, true, false, none, some, arith, ◌==◌, ◌!=◌, sym,
  ap, ap₂,
}
use sysx.Base.Memory.{update}
use sysx.Mm.Pmm.{Pmm}
use sysx.Arch.Paging.{
  Bits, Pte, Pde, absent, table_at, huge, Paging, pde_of, pte_of, bits_of, make_entry, split_table,
  pgmap_huge,
}
use sysx.Arch.Paging.Query.{get_paddr}

-- An address by the directory entry and the table that it goes through.
unfoldable pub lookup : Pde → (ℕ → Pte) → ℕ → ℕ
lookup d tab v = elim d [
  | absent ↦ 0
  | huge bits n ↦ n * 0x40_0000 + v % 0x40_0000
  | table_at p w u frame ↦ elim (tab (pte_of v)) [
    | none ↦ 0
    | some (bits, pa) ↦ pa * 4096 + v % 4096
  ]
]

pub get_paddr-lookup :
    (s : Paging) (v : ℕ) → get_paddr s v ≡ lookup (s.dir (pde_of v)) (s.table (pde_of v)) v
unfolding get_paddr lookup
get_paddr-lookup s v = refl

-- Another entry of the directory is not looked at.
pub get_paddr_other :
    (d : ℕ → Pde) (tab : ℕ → ℕ → Pte) (p q : Pmm) (i : ℕ) (e : Pde) (f : ℕ → Pte) (v : ℕ)
    → i ≢ pde_of v
    → get_paddr (record { dir = update d i e; table = update tab i f; pmm = q }) v
      ≡ get_paddr (record { dir = d; table = tab; pmm = p }) v
get_paddr_other d tab p q i e f v ne =
    let other : (i == pde_of v) ≡ false = ground arith in
    let entry : update d i e (pde_of v) ≡ d (pde_of v) = rw other refl in
    let rest : update tab i f (pde_of v) ≡ tab (pde_of v) = rw other refl in
    get_paddr-lookup (record { dir = update d i e; table = update tab i f; pmm = q }) v
    ∙ ap₂ (λ x y. lookup x y v) entry rest
    ∙ sym (get_paddr-lookup (record { dir = d; table = tab; pmm = p }) v)

pub get_paddr_same :
    (d : ℕ → Pde) (tab : ℕ → ℕ → Pte) (q : Pmm) (i : ℕ) (e : Pde) (f : ℕ → Pte) (v : ℕ)
    → i ≡ pde_of v
    → get_paddr (record { dir = update d i e; table = update tab i f; pmm = q }) v ≡ lookup e f v
get_paddr_same d tab q i e f v e' =
    let same : (i == pde_of v) ≡ true = ground arith in
    let entry : update d i e (pde_of v) ≡ e = rw same refl in
    let rest : update tab i f (pde_of v) ≡ f = rw same refl in
    get_paddr-lookup (record { dir = update d i e; table = update tab i f; pmm = q }) v
    ∙ ap₂ (λ x y. lookup x y v) entry rest

-- An entry with the present bit has a word that is not 0.
pub make_entry-some :
    (b : Bits) (frame : ℕ) → b.present ≡ true → make_entry b frame ≡ some (b, frame)
make_entry-some b frame h = rw h refl

-- What a written table says of its page and of the others.
pub lookup-page :
    (a b c : Bool) (frame : ℕ) (tab : ℕ → Pte) (bits : Bits) (pa va v : ℕ)
    → bits.present ≡ true
    → v / 4096 ≡ va / 4096
    → lookup (table_at a b c frame) (update tab (pte_of va) (make_entry bits (pa / 4096))) v
      ≡ pa / 4096 * 4096 + v % 4096
unfolding lookup
lookup-page a b c frame tab bits pa va v h e =
    let same : (pte_of va == pte_of v) ≡ true = ground arith in
    rw (lookup, same, make_entry-some bits (pa / 4096) h) refl

pub lookup_other :
    (a b c : Bool) (frame : ℕ) (tab : ℕ → Pte) (entry : Pte) (va v : ℕ)
    → pde_of va ≡ pde_of v
    → v / 4096 ≢ va / 4096
    → lookup (table_at a b c frame) (update tab (pte_of va) entry) v
      ≡ lookup (table_at a b c frame) tab v
unfolding lookup
lookup_other a b c frame tab entry va v e ne =
    let other : (pte_of va == pte_of v) ≡ false = ground arith in rw (lookup, other) refl

-- A huge page says the same of another page as the table that takes its place.
pub lookup-split :
    (a b c : Bool) (frame : ℕ) (bits : Bits) (n : ℕ) (entry : Pte) (va v : ℕ)
    → bits.present ≡ true
    → pde_of va ≡ pde_of v
    → v / 4096 ≢ va / 4096
    → lookup (table_at a b c frame) (update (split_table bits n (pte_of va)) (pte_of va) entry) v
      ≡ n * 0x40_0000 + v % 0x40_0000
unfolding lookup
lookup-split a b c frame bits n entry va v h e ne =
    let other : (pte_of va == pte_of v) ≡ false = ground arith in
    let apart : (pte_of v != pte_of va) ≡ true = ground arith in
    rw (lookup, other, apart, make_entry-some bits (n * 1024 + pte_of v) h) (omega arith)

-- The page leads to the frame, and another page to where the old entry says.
unfoldable pub IsMappedBy : ℕ → ℕ → (ℕ → ℕ) → Paging → Type 0
IsMappedBy pa va old s =
    ((v : ℕ) → v / 4096 ≡ va / 4096 → get_paddr s v ≡ pa / 4096 * 4096 + v % 4096)
    × ((v : ℕ) → v / 4096 ≢ va / 4096 → get_paddr s v ≡ old v)

-- `vmm_pgmap_huge` makes the 4 MB around the address lead to those around `pa`, and leaves all other
-- addresses leading where they did.
pub pgmap_huge-maps :
    (pa va flags : ℕ) (s : Paging)
    → ((v : ℕ)
        → pde_of v ≡ pde_of va
        → get_paddr (pgmap_huge pa va flags s) v ≡ pa / 0x40_0000 * 0x40_0000 + v % 0x40_0000)
      × ((v : ℕ) → pde_of v ≢ pde_of va → get_paddr (pgmap_huge pa va flags s) v ≡ get_paddr s v)
unfolding pgmap_huge get_paddr lookup
pgmap_huge-maps pa va flags s = (
  λ v e. let same : (pde_of va == pde_of v) ≡ true = ground arith in rw (get_paddr, same) refl,
  λ v ne.
      let other : (pde_of va == pde_of v) ≡ false = ground arith in
      let new = huge (bits_of flags) (pa / 0x40_0000) in
      let entry : update s.dir (pde_of va) new (pde_of v) ≡ s.dir (pde_of v) = rw other refl in
      ap (λ x. lookup x (s.table (pde_of v)) v) entry,
)
