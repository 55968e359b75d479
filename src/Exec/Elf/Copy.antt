-- ===== src/Exec/Elf/Copy.antt =====
-- The copy loop of `elf_load_phdr`: what it leaves in memory.
use sysx.Base.{
  ℕ, zero, suc, ◌+◌, ◌-◌, ◌%◌, ◌<◌, ◌≤◌, ◌≡◌, ◌≢◌, refl, ◌∙◌, ◌⊎◌, inl, inr, true, Option, some,
  arith, ltb, if◌then◌else◌, Bool-cases, ltb→lt, dec_lt, add_size, ap,
}
use sysx.Base.Memory.{Memory}
use sysx.Mm.Vmm.{Target}
use sysx.Exec.Elf.{Phdr}
use sysx.Exec.Elf.Segment.{copy_from, piece_size, piece_read, read_to, clear_to}

-- What byte `k` of a segment is to be.
abbrev pub segment_byte : (ℕ → ℕ) → Phdr → ℕ → ℕ
segment_byte bytes ph k = if ltb k ph.p_filesz then bytes (ph.p_offset + k) else 0

-- A round stays within its page and the segment, and moves on.
piece_size-bounds :
    (paddr memsz offset : ℕ)
    → offset < memsz
    → memsz + 4096 < 0x1_0000_0000
    → (0 < piece_size paddr memsz offset)
      × (offset + piece_size paddr memsz offset ≤ memsz)
      × (paddr % 4096 + piece_size paddr memsz offset ≤ 4096)
piece_size-bounds paddr memsz offset more small = (ground arith, ground arith, ground arith)

-- What a round writes at the `j`-th byte of its piece, and that it writes no other.
piece-byte :
    (bytes : ℕ → ℕ) (ph : Phdr) (paddr offset sz j : ℕ) (m : Memory)
    → j < sz
    → offset + sz < 0x1_0000_0000
    → clear_to
        (paddr + piece_read sz ph.p_filesz offset)
        (sz - piece_read sz ph.p_filesz offset)
        (read_to bytes (ph.p_offset + offset) paddr (piece_read sz ph.p_filesz offset) m)
        (paddr + j)
      ≡ segment_byte bytes ph (offset + j)
piece-byte bytes ph paddr offset sz j m lt small =
    let e : ph.p_offset + offset + (paddr + j - paddr) ≡ ph.p_offset + (offset + j) = omega arith in
    let e' = ap bytes e in ground arith

piece_other :
    (bytes : ℕ → ℕ) (ph : Phdr) (paddr offset sz a : ℕ) (m : Memory)
    → (a < paddr) ⊎ (paddr + sz ≤ a)
    → clear_to
        (paddr + piece_read sz ph.p_filesz offset)
        (sz - piece_read sz ph.p_filesz offset)
        (read_to bytes (ph.p_offset + offset) paddr (piece_read sz ph.p_filesz offset) m)
        a
      ≡ m a
piece_other bytes ph paddr offset sz a m out = ground arith

module _ {S : Type 0} (t : Target S) (vmm_current alloc_vmm dst : ℕ) (bytes : ℕ → ℕ) (ph : Phdr)
    (phys : ℕ → ℕ)
    (paged : (k j : ℕ) → k + j < ph.p_memsz → phys k % 4096 + j < 4096 → phys (k + j) ≡ phys k + j)
    (apart : (k j : ℕ) → k < ph.p_memsz → j < ph.p_memsz → phys k ≡ phys j → k ≡ j) where
  -- Where the bytes of the segment lead to in an address space.
  abbrev pub LeadsTo : S → Type 0
  LeadsTo s = (k : ℕ) → k < ph.p_memsz → t.get_paddr s alloc_vmm (add_size ph.p_vaddr k) ≡ phys k

  -- The loop ends with the bytes from `offset` on in place and the rest of the memory as it was.
  unfoldable Fills : ℕ → Memory → Option (S × Memory) → Type 0
  Fills offset m r =
      (s' : S) × (m' : Memory) × (r ≡ some (s', m'))
      × ((k : ℕ) → offset ≤ k → k < ph.p_memsz → m' (phys k) ≡ segment_byte bytes ph k)
      × ((a : ℕ) → ((k : ℕ) → offset ≤ k → k < ph.p_memsz → a ≢ phys k) → m' a ≡ m a)

  abbrev size_at : ℕ → ℕ
  size_at offset = piece_size (phys offset) ph.p_memsz offset

  abbrev after : ℕ → Memory → Memory
  after offset m =
      clear_to (phys offset + piece_read (size_at offset) ph.p_filesz offset)
        (size_at offset - piece_read (size_at offset) ph.p_filesz offset)
        (read_to bytes (ph.p_offset + offset) (phys offset)
          (piece_read (size_at offset) ph.p_filesz offset) m)

  module _ (small : ph.p_memsz + 4096 < 0x1_0000_0000) where
    after-byte :
        (offset k : ℕ) (m : Memory)
        → offset ≤ k
        → k < offset + size_at offset
        → offset < ph.p_memsz
        → after offset m (phys k) ≡ segment_byte bytes ph k
    after-byte offset k m lo hi more =
        let (pos, inside, page) = piece_size-bounds (phys offset) ph.p_memsz offset more small in
        let e : offset + (k - offset) ≡ k = omega arith in
        let at : phys k ≡ phys offset + (k - offset) =
          rw e at (paged offset (k - offset) (omega arith) (omega arith)) in
        rw at (
          piece-byte bytes ph (phys offset) offset (size_at offset) (k - offset) m (omega arith)
            (omega arith))
        ∙ ap (segment_byte bytes ph) e

    after_other :
        (offset a : ℕ) (m : Memory)
        → offset < ph.p_memsz
        → ((k : ℕ) → offset ≤ k → k < ph.p_memsz → a ≢ phys k)
        → after offset m a ≡ m a
    after_other offset a m more out =
        let (pos, inside, page) = piece_size-bounds (phys offset) ph.p_memsz offset more small in
        piece_other bytes ph (phys offset) offset (size_at offset) a m
          (elim (dec_lt a (phys offset)) [
            | yes below ↦ inl below
            | no above ↦ elim (dec_lt a (phys offset + size_at offset)) [
              | no past ↦ inr (omega arith)
              | yes within ↦
                  let j = a - phys offset in
                  absurd (
                    out (offset + j) (omega arith) (omega arith)
                      (omega (arith, paged offset j (omega arith) (omega arith))))
            ]
          ])

    Fills-step :
        (offset : ℕ) (m : Memory) (r : Option (S × Memory))
        → offset < ph.p_memsz
        → Fills (offset + size_at offset) (after offset m) r
        → Fills offset m r
    unfolding Fills
    Fills-step offset m r more (s', m', run, fills, keeps) =
        let (pos, inside, page) = piece_size-bounds (phys offset) ph.p_memsz offset more small in
        (
          s',
          m',
          run,
          λ k lo hi. elim (dec_lt k (offset + size_at offset)) [
            | yes now ↦
                keeps (phys k) (λ j lo' hi' e. absurd (omega (arith, apart k j hi hi' e)))
                ∙ after-byte offset k m lo now more
            | no later ↦ fills k (omega arith) hi
          ],
          λ a out. keeps a (λ k lo hi. out k (omega arith) hi) ∙ after_other offset a m more out,
        )

    module _
        (window : (s : S) (pa k : ℕ)
          → k < ph.p_memsz
          → t.get_paddr (t.set_paddr vmm_current dst pa s) alloc_vmm (add_size ph.p_vaddr k)
            ≡ t.get_paddr s alloc_vmm (add_size ph.p_vaddr k))
        (shown : (s : S) (k : ℕ)
          → k < ph.p_memsz
          → t.get_paddr
              (t.set_paddr vmm_current dst (phys k) s)
              vmm_current
              (add_size dst (phys k % 4096))
            ≡ phys k) where
      copy_from-more :
          (fuel offset : ℕ) (s : S) (m : Memory)
          → offset < ph.p_memsz
          → LeadsTo s
          → copy_from t vmm_current alloc_vmm (suc fuel) bytes ph dst offset s m
            ≡ copy_from t vmm_current alloc_vmm fuel bytes ph dst
                (offset + size_at offset)
                (t.set_paddr vmm_current dst (phys offset) s)
                (after offset m)
      unfolding copy_from
      copy_from-more fuel offset s m more leads =
          let (pos, inside, page) = piece_size-bounds (phys offset) ph.p_memsz offset more small in
          let go : ltb offset ph.p_memsz ≡ true = ground arith in
          let next : add_size offset (size_at offset) ≡ offset + size_at offset = omega arith in
          rw (copy_from, go, leads offset more, next, shown s offset more) refl

      copy_from-Fills :
          (fuel offset : ℕ) (s : S) (m : Memory)
          → ph.p_memsz - offset < fuel
          → offset ≤ ph.p_memsz
          → LeadsTo s
          → Fills offset m (copy_from t vmm_current alloc_vmm fuel bytes ph dst offset s m)
      unfolding copy_from Fills
      copy_from-Fills zero offset s m enough le leads = elim enough [ ]
      copy_from-Fills (suc fuel) offset s m enough le leads =
          elim (Bool-cases (ltb offset ph.p_memsz)) [
            | inl go ↦
                let more : offset < ph.p_memsz = ltb→lt offset ph.p_memsz go in
                let (pos, inside, page) =
                  piece_size-bounds (phys offset) ph.p_memsz offset more small in
                rw (copy_from-more fuel offset s m more leads) (
                  Fills-step offset m _ more (
                    copy_from-Fills fuel (offset + size_at offset)
                      (t.set_paddr vmm_current dst (phys offset) s) (after offset m) (omega arith)
                      inside (λ k lt. window s (phys offset) k lt ∙ leads k lt)))
            | inr stop ↦
                (s, m, rw (copy_from, stop) refl, λ k lo hi. absurd (ground arith), λ a out. refl)
          ]

      -- For a segment whose bytes lead page by page to different physical addresses, which moving the
      -- window for copying does not change, and a window that shows the physical address to which it
      -- was moved last: the copy loop of `elf_load_phdr`, which writes through the window only, ends
      -- after at most a round for every byte and one more. Each of the first `p_filesz` bytes of the segment is then
      -- that of the file, every other one 0, and no memory outside the segment has changed.
      pub copy_from-fills :
          (s : S) (m : Memory)
          → LeadsTo s
          → (s' : S) × (m' : Memory) × (copy_from t vmm_current alloc_vmm
                (ph.p_memsz + 1)
                bytes
                ph
                dst
                0
                s
                m
              ≡ some (s', m'))
            × ((k : ℕ) → k < ph.p_memsz → m' (phys k) ≡ segment_byte bytes ph k)
            × ((a : ℕ) → ((k : ℕ) → k < ph.p_memsz → a ≢ phys k) → m' a ≡ m a)
      unfolding Fills
      copy_from-fills s m leads =
          let (s', m', run, fills, keeps) =
            copy_from-Fills (ph.p_memsz + 1) 0 s m (omega arith) (omega arith) leads in
          (s', m', run, λ k lt. fills k (omega arith) lt, λ a out. keeps a (λ k lo hi. out k hi))
