-- ===== src/Drivers/Pci/Dword.antt =====
-- Dwords at offsets that are not aligned.
use sysx.Base.{
  ℕ, zero, suc, ◌+◌, ◌-◌, ◌*◌, ◌/◌, ◌%◌, ◌^◌, ◌<◌, ◌≡◌, ◌≢◌, refl, sym, subst, ◌∙◌, true, false,
  ◌==◌, bit_or, arith,
}
use sysx.Base.Bits.{bit_or-byte}
use sysx.Drivers.Pci.{Config, IsMemory, get, put, clear_bytes, read_dword, write_dword}
use sysx.Drivers.Pci.Splice.{byte}

-- The second half of an unaligned dword: two operands without a lowest byte.
low_byte-bit_or : (a b : ℕ) → a % 256 ≡ 0 → b % 256 ≡ 0 → bit_or a b % 256 ≡ 0
low_byte-bit_or a b ha hb =
    let ea : a ≡ a / 256 * 256 = omega arith in
    let eb : b ≡ b / 256 * 256 = omega arith in
    rw (ea, eb, bit_or-byte (a / 256) (b / 256)) (omega arith)

second-half :
    (d v o : ℕ)
    → o < 3
    → bit_or (clear_bytes d 0 (suc o)) (v * 256 ^ (4 - suc o) % 0x1_0000_0000) % 256 ≡ 0
second-half d v zero ho = low_byte-bit_or _ _ (omega arith) (omega arith)
second-half d v (suc zero) ho = low_byte-bit_or _ _ (omega arith) (omega arith)
second-half d v (suc (suc zero)) ho = low_byte-bit_or _ _ (omega arith) (omega arith)
second-half d v (suc (suc (suc o))) ho = absurd (omega arith)

-- What is read from the two halves.
halves :
    (d v e o : ℕ)
    → o < 3
    → d < 0x1_0000_0000
    → v < 0x1_0000_0000
    → e % 256 ≡ 0
    → (let r =
          (d % 256 ^ suc o + v * 256 ^ suc o) % 0x1_0000_0000 / 256 ^ suc o
          + e * 256 ^ (4 - suc o) % 0x1_0000_0000 in
        (r % 256 ^ (4 - suc o) ≡ v % 256 ^ (4 - suc o)) × (byte r (4 - suc o) ≡ 0))
halves d v e zero ho hd hv he = omega arith
halves d v e (suc zero) ho hd hv he = omega arith
halves d v e (suc (suc zero)) ho hd hv he = omega arith
halves d v e (suc (suc (suc o))) ho hd hv he = absurd (omega arith)

module _ {S : Type 0} (c : Config S) (law : IsMemory c) (bus dev func : ℕ) where
  -- The two dwords behind an unaligned write.
  unaligned :
      (s : S) (offset val k : ℕ)
      → bus < 256
      → dev < 32
      → func < 8
      → offset < 256
      → val < 0x1_0000_0000
      → offset % 4 ≡ suc k
      → (let r = read_dword c bus dev func (write_dword c bus dev func offset val s) offset in
          (r % 256 ^ (4 - suc k) ≡ val % 256 ^ (4 - suc k)) × (byte r (4 - suc k) ≡ 0))
  unfolding read_dword write_dword
  unaligned s offset val k hb hd hf ho hv e =
      let base = offset - suc k in
      let next = (offset - suc k + 4) % 256 in
      let d = get c bus dev func s base in
      let n1 = d % 256 ^ suc k + val * 256 ^ suc k in
      let s1 = put c bus dev func base n1 s in
      let n2 =
        bit_or (clear_bytes (get c bus dev func s1 next) 0 (suc k))
          (val * 256 ^ (4 - suc k) % 0x1_0000_0000) in
      let s2 = put c bus dev func next n2 s1 in
      let odd : (offset % 4 == 0) ≡ false = ground arith in
      let apart : (next / 4 == base / 4) ≡ false = ground arith in
      let same : (base / 4 == base / 4) ≡ true = ground arith in
      let same' : (next / 4 == next / 4) ≡ true = ground arith in
      let first : get c bus dev func s2 base ≡ n1 % 0x1_0000_0000 =
        law.read-write s1 bus dev func next (n2 % 0x1_0000_0000) base hb hd hf (omega arith)
          (omega arith) (omega arith)
        ∙ rw apart (
            law.read-write s bus dev func base (n1 % 0x1_0000_0000) base hb hd hf (omega arith)
              (omega arith) (omega arith)
            ∙ rw same refl) in
      let second : get c bus dev func s2 next ≡ n2 % 0x1_0000_0000 =
        law.read-write s1 bus dev func next (n2 % 0x1_0000_0000) next hb hd hf (omega arith)
          (omega arith) (omega arith)
        ∙ rw same' refl in
      let none_low : n2 % 0x1_0000_0000 % 256 ≡ 0 =
        omega (arith, second-half (get c bus dev func s1 next) val k (omega arith)) in
      rw (read_dword, write_dword, odd, e, first, second)
        (halves d val (n2 % 0x1_0000_0000) k (omega arith) (law.read-lt s bus dev func base) hv
          none_low)

  aligned :
      (s : S) (offset val : ℕ)
      → bus < 256
      → dev < 32
      → func < 8
      → offset < 256
      → val < 0x1_0000_0000
      → offset % 4 ≡ 0
      → read_dword c bus dev func (write_dword c bus dev func offset val s) offset ≡ val
  unfolding read_dword write_dword
  aligned s offset val hb hd hf ho hv even =
      let low : (offset % 4 == 0) ≡ true = ground arith in
      rw (read_dword, write_dword, low)
        (law.read-write s bus dev func offset (val % 0x1_0000_0000) offset hb hd hf ho ho
            (omega arith)
          ∙ ground arith)

  -- A dword at an aligned offset is read back as it was written. At any other the bytes up to the end
  -- of the aligned dword are read back, and the byte behind them is read as 0, whatever was written.
  pub read_dword-write_dword :
      (s : S) (offset val : ℕ)
      → bus < 256
      → dev < 32
      → func < 8
      → offset < 256
      → val < 0x1_0000_0000
      → (let r = read_dword c bus dev func (write_dword c bus dev func offset val s) offset in
          let left = 4 - offset % 4 in
          (offset % 4 ≡ 0 → r ≡ val)
          × (offset % 4 ≢ 0 → (r % 256 ^ left ≡ val % 256 ^ left) × (byte r left ≡ 0)))
  read_dword-write_dword s offset val hb hd hf ho hv = (
    aligned s offset val hb hd hf ho hv,
    λ odd.
        let r = read_dword c bus dev func (write_dword c bus dev func offset val s) offset in
        let e : offset % 4 ≡ suc (offset % 4 - 1) = ground arith in
        subst (λ o. (r % 256 ^ (4 - o) ≡ val % 256 ^ (4 - o)) × (byte r (4 - o) ≡ 0)) (sym e)
          (unaligned s offset val (offset % 4 - 1) hb hd hf ho hv e),
  )
