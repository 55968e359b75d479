-- ===== src/Arch/Paging.antt =====
-- arch/x86cpu/vmm.c, the page tables of an x86, for the current address space, whose directory and
-- tables the recursive mapping shows. `table i` is the page table that entry `i` of the directory
-- shows, for the entries below 1023: the last entry is the directory itself, and the region behind
-- 0xffc00000 in which it shows the tables is left out, as is what the processor caches.
pub mod Query
pub mod Unmap
pub mod Lookup
pub mod Address
pub mod Trap
mod Tests
use sysx.Base.{
  ℕ, zero, suc, ◌+◌, ◌-◌, ◌*◌, ◌/◌, ◌%◌, ◌^◌, Bool, true, false, not, ◌&&◌, ◌||◌, Option, none,
  some, leb, ltb, ◌==◌, ◌!=◌, if◌then◌else◌, bit_and, bit_or, size_max,
}
use sysx.Base.Memory.{update}
use sysx.Mm.Pmm.{Pmm, free, alloc_free}

-- The bits that an entry of a table and a directory entry of a huge page share.
pub record Bits : Type 0 where
  pub present : Bool
  pub rw : Bool
  pub user : Bool
  pub wthru : Bool
  pub ncache : Bool
  pub accessed : Bool
  pub dirty : Bool
  pub global : Bool
  pub trapped : Bool

-- `vmm_pte_t`: `none` is a word that is 0; else its bits and `pa`, the number of its frame.
abbrev pub Pte : Type 0
Pte = Option (Bits × ℕ)

-- `vmm_pde_t`: a word that is 0, a page table with its frame, or a huge page with its number of 4 MB.
pub data Pde : Type 0 where
  absent : Pde
  table_at : Bool → Bool → Bool → ℕ → Pde
  huge : Bits → ℕ → Pde

pub record Paging : Type 0 where
  pub dir : ℕ → Pde
  pub table : ℕ → ℕ → Pte
  pub pmm : Pmm

abbrev pub pde_of : ℕ → ℕ
pde_of va = va / 0x40_0000

abbrev pub pte_of : ℕ → ℕ
pte_of va = va / 4096 % 1024

-- Whether a flag is set.
abbrev pub has : ℕ → ℕ → Bool
has flags mask = bit_and flags mask != 0

-- The bits of an entry that is written for the flags.
abbrev pub bits_of : ℕ → Bits
bits_of flags = record {
  present = has flags 1;
  rw = has flags 2;
  user = has flags 4;
  wthru = has flags 32;
  ncache = not (has flags 16);
  accessed = false;
  dirty = false;
  global = has flags 8;
  trapped = has flags 64;
}

-- An entry with these bits and this frame.
abbrev pub make_entry : Bits → ℕ → Pte
make_entry b frame =
    if b.present
      || b.rw
      || b.user
      || b.wthru
      || b.ncache
      || b.accessed
      || b.dirty
      || b.global
      || b.trapped
      || frame != 0
    then some (b, frame)
    else none

-- The table that takes the place of a huge page, but for entry `pte`.
abbrev pub split_table : Bits → ℕ → ℕ → ℕ → Pte
split_table bits pa pte i = if i != pte then make_entry bits (pa * 1024 + i) else none

-- The directory entry is given the flags besides those it has.
abbrev pub add_flags : ℕ → Pde → Pde
add_flags flags absent = absent
add_flags flags (table_at p w u frame) =
    table_at (p || has flags 1) (w || has flags 2) (u || has flags 4) frame
add_flags flags (huge bits pa) = huge bits pa

-- `vmm_pgmap_small`; `none` is the access to a null table after the frames ran out, or a search of the
-- page frames that does not end.
unfoldable pub pgmap_small : ℕ → ℕ → ℕ → Paging → Option Paging
pgmap_small pa va flags s =
    let i = pde_of va in
    let j = pte_of va in
    let entry = make_entry (bits_of flags) (pa / 4096) in
    elim (s.dir i) [
      | table_at p w u frame ↦ some (record s {
        dir = update s.dir i (add_flags flags (table_at p w u frame));
        table = update s.table i (update (s.table i) j entry);
      })
      | absent ↦ elim (alloc_free s.pmm 1) [
        | none ↦ none
        | some (frame, p) ↦
            if frame == size_max
            then none
            else some (record {
              dir = update s.dir i (add_flags flags (table_at true true false frame));
              table = update s.table i (update (λ k. none) j entry);
              pmm = p;
            })
      ]
      | huge bits n ↦ elim (alloc_free s.pmm 1) [
        | none ↦ none
        | some (frame, p) ↦
            if frame == size_max
            then none
            else some (record {
              dir =
                  update s.dir i
                    (add_flags flags (table_at true true (bits.present && bits.user) frame));
              table =
                  update s.table i
                    (update (if bits.present then split_table bits n j else λ k. none) j entry);
              pmm = p;
            })
      ]
    ]

-- `vmm_pgmap_huge`.
unfoldable pub pgmap_huge : ℕ → ℕ → ℕ → Paging → Paging
pgmap_huge pa va flags s =
    let i = pde_of va in
    let p : Pmm = elim (s.dir i) [ table_at a b c frame ↦ free s.pmm frame | _ ↦ s.pmm ] in
    record s { dir = update s.dir i (huge (bits_of flags) (pa / 0x40_0000)); pmm = p }
