-- ===== src/Arch/Paging/Query.antt =====
-- What the page tables say of an address, and how single fields of an entry are changed.
use sysx.Base.{ℕ, ◌+◌, ◌*◌, ◌/◌, ◌%◌, Bool, false, not, none, some, if◌then◌else◌, size_max}
use sysx.Base.Memory.{update}
use sysx.Arch.Paging.{Bits, Pte, absent, table_at, huge, Paging, pde_of, pte_of, has, make_entry}

unfoldable pub get_pgsz : Paging → ℕ → ℕ
get_pgsz s va = elim (s.dir (pde_of va)) [
  | absent ↦ size_max
  | huge bits n ↦ 1
  | table_at p w u frame ↦ elim (s.table (pde_of va) (pte_of va)) [ none ↦ size_max | some e ↦ 0 ]
]

unfoldable pub get_paddr : Paging → ℕ → ℕ
get_paddr s va = elim (s.dir (pde_of va)) [
  | absent ↦ 0
  | huge bits n ↦ n * 0x40_0000 + va % 0x40_0000
  | table_at p w u frame ↦ elim (s.table (pde_of va) (pte_of va)) [
    | none ↦ 0
    | some (bits, pa) ↦ pa * 4096 + va % 4096
  ]
]

-- Entry `j` of table `i` is replaced.
abbrev pub write_entry : ℕ → ℕ → Pte → Paging → Paging
write_entry i j e s = record s { table = update s.table i (update (s.table i) j e) }

unfoldable pub set_paddr : ℕ → ℕ → Paging → Paging
set_paddr va pa s =
    let i = pde_of va in
    let j = pte_of va in
    elim (s.dir i) [
      | absent ↦ s
      | huge bits n ↦ record s { dir = update s.dir i (huge bits (pa / 0x40_0000)) }
      | table_at p w u frame ↦ elim (s.table i j) [
        | none ↦ s
        | some (bits, old) ↦ write_entry i j (make_entry bits (pa / 4096)) s
      ]
    ]

-- The flags that the bits of an entry stand for; they have no bit in common.
abbrev pub flags_of : Bits → ℕ
flags_of b =
    (if b.present then 1 else 0)
    + (if b.rw then 2 else 0)
    + (if b.user then 4 else 0)
    + (if b.global then 8 else 0)
    + (if b.ncache then 0 else 16 + (if b.wthru then 32 else 0))
    + (if b.trapped then 64 else 0)

unfoldable pub get_flags : Paging → ℕ → ℕ
get_flags s va = elim (s.dir (pde_of va)) [
  | absent ↦ 0
  | huge bits n ↦ flags_of bits
  | table_at p w u frame ↦ elim (s.table (pde_of va) (pte_of va)) [
    | none ↦ 0
    | some (bits, pa) ↦ flags_of bits
  ]
]

-- The flags are put into an entry, which keeps its other bits.
abbrev pub put_flags : ℕ → Bits → Bits
put_flags flags b = record b {
  present = has flags 1;
  rw = has flags 2;
  user = has flags 4;
  wthru = has flags 32;
  ncache = not (has flags 16);
  global = has flags 8;
}

abbrev pub no_bits : Bits
no_bits = record {
  present = false;
  rw = false;
  user = false;
  wthru = false;
  ncache = false;
  accessed = false;
  dirty = false;
  global = false;
  trapped = false;
}

-- The mark for traps of any entry, also of one whose word is 0.
abbrev pub put_trapped : Bool → Pte → Pte
put_trapped b none = make_entry (record no_bits { trapped = b }) 0
put_trapped b (some (bits, pa)) = make_entry (record bits { trapped = b }) pa

-- `vmm_set_flags`; for a small page the mark for traps goes to entry `pde` of the table.
unfoldable pub set_flags : ℕ → ℕ → Paging → Paging
set_flags va flags s =
    let i = pde_of va in
    let j = pte_of va in
    elim (s.dir i) [
      | absent ↦ s
      | huge bits n ↦ record s {
        dir = update s.dir i (huge (record (put_flags flags bits) { trapped = has flags 64 }) n);
      }
      | table_at p w u frame ↦ elim (s.table i j) [
        | none ↦ s
        | some (bits, pa) ↦
            let s' = write_entry i j (make_entry (put_flags flags bits) pa) s in
            write_entry i i (put_trapped (has flags 64) (s'.table i i)) s'
      ]
    ]

pub get_dirty : Paging → ℕ → Bool
get_dirty s va = elim (s.dir (pde_of va)) [
  | absent ↦ false
  | huge bits n ↦ bits.dirty
  | table_at p w u frame ↦ elim (s.table (pde_of va) (pte_of va)) [
    | none ↦ false
    | some (bits, pa) ↦ bits.dirty
  ]
]

pub set_dirty : ℕ → Bool → Paging → Paging
set_dirty va dirty s =
    let i = pde_of va in
    let j = pte_of va in
    elim (s.dir i) [
      | absent ↦ s
      | huge bits n ↦ record s { dir = update s.dir i (huge (record bits { dirty = dirty }) n) }
      | table_at p w u frame ↦ elim (s.table i j) [
        | none ↦ s
        | some (bits, pa) ↦ write_entry i j (make_entry (record bits { dirty = dirty }) pa) s
      ]
    ]
