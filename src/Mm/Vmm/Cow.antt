-- ===== src/Mm/Vmm/Cow.antt =====
-- mm/vmm.c: copy-on-write pages are set up, resolved and taken down. The memory is the physical one.
use sysx.Base.{
  ℕ, zero, suc, ◌+◌, ◌-◌, ◌%◌, Bool, true, false, not, ◌&&◌, ◌||◌, Option, none, some, List,
  bit_and, bit_or, ltb, ◌==◌, ◌!=◌, if◌then◌else◌, add_size, sub_size, size_max, get_or, set,
}
use sysx.Base.Bits.{complement}
use sysx.Mm.Vmm.{Target, pgsz, map}
use sysx.Mm.Vmm.Traps.{cow, Trap, no_entry, Traps, Call, waits, returns, new_trap, delete_trap}

-- The size of a page by its index, 0 for `(size_t)-1`.
abbrev pub page_bytes : ℕ → ℕ
page_bytes idx = if idx == 0 then pgsz 0 else if idx == 1 then pgsz 1 else 0

-- `(flags & ~VMM_FLAGS_RW) | VMM_FLAGS_TRAPPED`
abbrev pub trapped : ℕ → ℕ
trapped flags = bit_or (bit_and flags (complement 32 2)) 64

-- `while(idx && vmm_pgsz(idx) > size) idx--;`
pub shrink : ℕ → ℕ → ℕ
shrink zero size = zero
shrink (suc i) size =
    let rest = shrink i size in if ltb size (page_bytes (suc i)) then rest else suc i

-- The arguments of `vmm_cow_setup` after the rounding: source, destination, size.
unfoldable pub round_cow : ℕ → ℕ → ℕ → ℕ × ℕ × ℕ
round_cow vaddr_src vaddr_dst size =
    let d_src = vaddr_src % 4096 in
    let d_dst = vaddr_dst % 4096 in
    let delta = if ltb d_src d_dst then d_dst else d_src in
    let sz = add_size size delta in
    (
      vaddr_src - d_src,
      vaddr_dst - d_dst,
      if sz % 4096 != 0 then add_size sz (sz - sz % 4096) else sz,
    )

-- The address spaces, the traps, and whether the next allocations of traps succeed.
pub record Space (S : Type 0) : Type 0 where
  pub vm : S
  pub traps : Traps
  pub heap : ℕ → Bool
  pub calls : ℕ

-- The `info` of two entries is set to each other.
abbrev pub link_traps : ℕ → ℕ → List Trap → List Trap
link_traps i j xs =
    let ys = set xs i (record (get_or xs i no_entry) { info = j }) in
    set ys j (record (get_or ys j no_entry) { info = i })

module _ {S : Type 0} (t : Target S) where
  -- A page of the source that is larger than what is left is mapped anew in pieces.
  pub split_page : ℕ → ℕ → ℕ → ℕ → S → Option S
  split_page vmm vaddr idx idx' s =
      let flags = t.get_flags s vmm vaddr in
      let bytes = page_bytes idx in
      let va_start = vaddr - vaddr % bytes in
      let pa_start = t.get_paddr s vmm va_start in
      let new_sz = page_bytes idx' in
      let off = vaddr - va_start in
      elim (map t vmm pa_start va_start off idx flags s) [
        | none ↦ none
        | some (a, s1) ↦ elim (map t vmm (add_size pa_start off) vaddr new_sz idx' flags s1) [
          | none ↦ none
          | some (b, s2) ↦
              elim (map t vmm (add_size (add_size pa_start off) new_sz) (add_size vaddr new_sz)
                (sub_size (add_size va_start bytes) (add_size vaddr new_sz)) idx flags s2) [
                  | none ↦ none
                  | some (c, s3) ↦ some s3
                ]
        ]
      ]

  -- The two entries of a pair are made; each call of `vmm_new_trap` waits if the mutex is held.
  pub new_pair : ℕ → ℕ → ℕ → ℕ → Space S → Call (Option ℕ × Option ℕ × Space S)
  new_pair vmm_src vaddr_src vmm_dst vaddr_dst x =
      elim (new_trap (x.heap x.calls) vmm_src vaddr_src cow x.traps) [
        | waits ↦ waits
        | returns (i, q) ↦ elim (new_trap (x.heap (x.calls + 1)) vmm_dst vaddr_dst cow q) [
          | waits ↦ waits
          | returns (j, r) ↦ returns (i, j, record x { traps = r; calls = x.calls + 2 })
        ]
      ]

  -- One round of the loop of `vmm_cow_setup`, behind the tests: the size of the page, or 0 if the pair
  -- cannot be made.
  pub setup_page : ℕ → ℕ → ℕ → ℕ → ℕ → ℕ → Space S → Option (Call (ℕ × Space S))
  unfolding split_page new_pair shrink
  setup_page vmm_src vaddr_src vmm_dst vaddr_dst done_sz left x =
      let idx = t.get_pgsz x.vm vmm_src vaddr_src in
      let big = idx != 0 && ltb left (page_bytes idx) in
      let idx' = if big then shrink idx left else idx in
      elim (if big then split_page vmm_src vaddr_src idx idx' x.vm else some x.vm) [
        | none ↦ none
        | some s ↦
            let s' =
              t.pgmap vmm_dst (t.get_paddr s vmm_src vaddr_src) (add_size vaddr_dst done_sz) idx'
                (trapped (t.get_flags s vmm_src (add_size vaddr_src done_sz))) s in
            some (elim (new_pair vmm_src vaddr_src vmm_dst vaddr_dst (record x { vm = s' })) [
              | waits ↦ waits
              | returns (some i, some j, y) ↦ returns (
                page_bytes idx',
                record y {
                  vm =
                      t.set_flags vmm_src vaddr_src (trapped (t.get_flags y.vm vmm_src vaddr_src))
                        y.vm;
                  traps = record y.traps { traps = link_traps i j y.traps.traps };
                },
              )
              | returns (i, j, y) ↦ returns (
                0,
                record y {
                  traps = record y.traps { traps = delete_trap j (delete_trap i y.traps.traps) };
                },
              )
            ])
      ]

  -- The loop; `none` means that the fuel ran out.
  unfoldable pub setup_from : ℕ → ℕ → ℕ → ℕ → ℕ → ℕ → ℕ → Space S → Option (Call (ℕ × Space S))
  unfolding setup_page
  setup_from zero vmm_src vaddr_src vmm_dst vaddr_dst size done_sz x = none
  setup_from (suc fuel) vmm_src vaddr_src vmm_dst vaddr_dst size done_sz x =
      let stop =
        not (ltb done_sz size)
        || t.get_pgsz x.vm vmm_src vaddr_src == size_max
        || t.get_pgsz x.vm vmm_dst vaddr_dst != size_max in
      elim stop [
        | true ↦ some (returns (done_sz, x))
        | false ↦ elim (setup_page vmm_src vaddr_src vmm_dst vaddr_dst done_sz (size - done_sz) x) [
          | none ↦ none
          | some waits ↦ some waits
          | some (returns (bytes, y)) ↦ elim (bytes == 0) [
            | true ↦ some (returns (done_sz, y))
            | false ↦
                setup_from fuel vmm_src (add_size vaddr_src bytes) vmm_dst
                  (add_size vaddr_dst bytes) size (add_size done_sz bytes) y
          ]
        ]
      ]

  unfoldable pub cow_setup : ℕ → ℕ → ℕ → ℕ → ℕ → ℕ → Space S → Option (Call (ℕ × Space S))
  unfolding setup_from round_cow
  cow_setup fuel vmm_src vaddr_src vmm_dst vaddr_dst size x =
      let (src, dst, sz) = round_cow vaddr_src vaddr_dst size in
      setup_from fuel vmm_src src vmm_dst dst sz 0 x
