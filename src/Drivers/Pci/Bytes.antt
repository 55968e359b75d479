-- ===== src/Drivers/Pci/Bytes.antt =====
-- What is written to the configuration space is read back.
use sysx.Base.{
  ℕ, ◌+◌, ◌-◌, ◌*◌, ◌/◌, ◌%◌, ◌^◌, ◌<◌, ◌≡◌, ◌≢◌, refl, ◌∙◌, inl, inr, Bool-cases, true, ◌==◌, ◌!=◌,
  ◌&&◌, if◌then◌else◌, arith,
}
use sysx.Drivers.Pci.{
  Config, IsMemory, get, put, dword_at, next_dword, clear_bytes, read_byte, write_byte, read_word,
  write_word,
}
use sysx.Drivers.Pci.Splice.{byte, byte-put, word-put, low-word}

module _ {S : Type 0} (c : Config S) (law : IsMemory c) (bus dev func : ℕ) where
  -- What a write of a dword does to each byte.
  put-byte :
      (s : S) (base a n : ℕ)
      → bus < 256
      → dev < 32
      → func < 8
      → base < 256
      → a < 256
      → read_byte c bus dev func (put c bus dev func base n s) a ≡ (
          if base / 4 == a / 4
          then byte (n % 0x1_0000_0000) (a % 4)
          else read_byte c bus dev func s a)
  unfolding read_byte
  put-byte s base a n hb hd hf hbase ha =
      rw
        (law.read-write s bus dev func base (n % 0x1_0000_0000) (dword_at a) hb hd hf hbase
          (omega arith) (omega arith))
        (ground arith)

  -- A byte of the dword at `offset`.
  same-dword :
      (s : S) (offset a : ℕ)
      → (dword_at offset / 4 == a / 4) ≡ true
      → read_byte c bus dev func s a ≡ byte (get c bus dev func s (dword_at offset)) (a % 4)
  unfolding read_byte
  same-dword s offset a same = let e : dword_at offset ≡ dword_at a = ground arith in rw e refl

  pub read_byte-write_byte :
      (s : S) (offset offset' val : ℕ)
      → bus < 256
      → dev < 32
      → func < 8
      → offset < 256
      → offset' < 256
      → val < 256
      → read_byte c bus dev func (write_byte c bus dev func offset val s) offset'
        ≡ (if offset == offset' then val else read_byte c bus dev func s offset')
  unfolding read_byte write_byte
  read_byte-write_byte s offset offset' val hb hd hf ho ho' hv =
      let d = get c bus dev func s (dword_at offset) in
      let o = offset % 4 in
      put-byte s (dword_at offset) offset' (clear_bytes d o (o + 1) + val * 256 ^ o) hb hd hf
        (omega arith) ho'
      ∙ rw
          (byte-put d val o (offset' % 4) (law.read-lt s bus dev func (dword_at offset)) hv
            (omega arith) (omega arith))
          (elim (Bool-cases (dword_at offset / 4 == offset' / 4)) [
            | inl same ↦ rw (same, same-dword s offset offset' same) (ground arith)
            | inr other ↦ rw other (ground arith)
          ])

  -- The bytes after the first dword of a word was written.
  first-bytes :
      (s : S) (offset a val : ℕ)
      → bus < 256
      → dev < 32
      → func < 8
      → offset < 256
      → a < 256
      → val < 0x1_0000
      → read_byte c bus dev func
          (put c bus dev func
            (dword_at offset)
            (clear_bytes
                (get c bus dev func s (dword_at offset))
                (offset % 4)
                (if offset % 4 == 3 then 4 else offset % 4 + 2)
              + val * 256 ^ (offset % 4))
            s)
          a
        ≡ (if offset == a
            then val % 256
            else if offset % 4 != 3 && offset + 1 == a
            then val / 256
            else read_byte c bus dev func s a)
  first-bytes s offset a val hb hd hf ho ha hv =
      let d = get c bus dev func s (dword_at offset) in
      let o = offset % 4 in
      put-byte s (dword_at offset) a _ hb hd hf (omega arith) ha
      ∙ rw
          (word-put d val o (a % 4) (law.read-lt s bus dev func (dword_at offset)) hv (omega arith)
            (omega arith))
          (elim (Bool-cases (dword_at offset / 4 == a / 4)) [
            | inl same ↦ rw (same, same-dword s offset a same) (ground arith)
            | inr other ↦ rw other (ground arith)
          ])

  aligned-byte :
      (s : S) (base a : ℕ)
      → base % 4 ≡ 0
      → (base / 4 == a / 4) ≡ true
      → read_byte c bus dev func s a ≡ byte (get c bus dev func s base) (a % 4)
  unfolding read_byte
  aligned-byte s base a even same = let e : dword_at a ≡ base = ground arith in rw e refl

  -- The bytes after the lowest byte of the dword at `base` was written.
  next-bytes :
      (s : S) (base a v : ℕ)
      → bus < 256
      → dev < 32
      → func < 8
      → base < 256
      → base % 4 ≡ 0
      → a < 256
      → v < 256
      → read_byte c bus dev func
          (put c bus dev func base (clear_bytes (get c bus dev func s base) 0 1 + v) s)
          a
        ≡ (if base == a then v else read_byte c bus dev func s a)
  next-bytes s base a v hb hd hf hbase even ha hv =
      let d = get c bus dev func s base in
      let at : dword_at base ≡ base = omega arith in
      let plain : v ≡ v * 256 ^ 0 = omega arith in
      put-byte s base a _ hb hd hf hbase ha
      ∙ rw
          (
            plain,
            byte-put d v 0 (a % 4) (law.read-lt s bus dev func base) hv (omega arith) (omega arith),
          )
          (elim (Bool-cases (base / 4 == a / 4)) [
            | inl same ↦ rw (same, aligned-byte s base a even same) (ground arith)
            | inr other ↦ rw other (ground arith)
          ])

  -- The bytes of the configuration space after a word was written.
  write_word-bytes :
      (s : S) (offset a val : ℕ)
      → bus < 256
      → dev < 32
      → func < 8
      → offset < 256
      → a < 256
      → val < 0x1_0000
      → read_byte c bus dev func (write_word c bus dev func offset val s) a ≡ (
          if offset == a
          then val % 256
          else if (offset + 1) % 256 == a
          then val / 256
          else read_byte c bus dev func s a)
  unfolding write_word
  write_word-bytes s offset a val hb hd hf ho ha hv =
      let first = first-bytes s offset a val hb hd hf ho ha hv in
      elim (Bool-cases (offset % 4 == 3)) [
        | inl three ↦
            rw (write_word, three)
              (next-bytes _ (next_dword offset) a (val / 256) hb hd hf (omega arith) (omega arith)
                  ha (omega arith)
                ∙ rw (rw three at first) (ground arith))
        | inr less ↦ rw (write_word, less) (rw less at first ∙ ground arith)
      ]

  read_word-bytes :
      (s : S) (offset : ℕ)
      → offset < 256
      → read_word c bus dev func s offset
        ≡ read_byte c bus dev func s offset + 256 * read_byte c bus dev func s ((offset + 1) % 256)
  unfolding read_word read_byte
  read_word-bytes s offset ho =
      let d = get c bus dev func s (dword_at offset) in
      elim (Bool-cases (offset % 4 == 3)) [
        | inl three ↦
            let o : offset % 4 ≡ 3 = ground arith in
            let n : dword_at ((offset + 1) % 256) ≡ (offset - 3 + 4) % 256 = omega arith in
            let m : (offset + 1) % 256 % 4 ≡ 0 = omega arith in
            rw (three, o, n, m) (omega (arith, law.read-lt s bus dev func (offset - 3)))
        | inr less ↦
            let n : dword_at ((offset + 1) % 256) ≡ dword_at offset = ground arith in
            let m : (offset + 1) % 256 % 4 ≡ offset % 4 + 1 = ground arith in
            rw (less, n, m)
              (low-word d (offset % 4) (law.read-lt s bus dev func (dword_at offset))
                (ground arith))
      ]

  -- A word that was written is read back, and no other byte of the function changes, also where the
  -- word lies across two dwords or goes on at the first offset.
  pub read_word-write_word :
      (s : S) (offset val : ℕ)
      → bus < 256
      → dev < 32
      → func < 8
      → offset < 256
      → val < 0x1_0000
      → (read_word c bus dev func (write_word c bus dev func offset val s) offset ≡ val)
        × ((a : ℕ)
            → a < 256
            → a ≢ offset
            → a ≢ (offset + 1) % 256
            → read_byte c bus dev func (write_word c bus dev func offset val s) a
              ≡ read_byte c bus dev func s a)
  read_word-write_word s offset val hb hd hf ho hv =
      let s' = write_word c bus dev func offset val s in
      let at = λ (a : ℕ) (ha : a < 256). write_word-bytes s offset a val hb hd hf ho ha hv in
      (
        read_word-bytes s' offset ho
            ∙ rw (at offset ho, at ((offset + 1) % 256) (omega arith)) (ground arith),
        λ a ha low high. at a ha ∙ ground arith,
      )
