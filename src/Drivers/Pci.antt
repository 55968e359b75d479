-- ===== src/Drivers/Pci.antt =====
-- drivers/pci.c: accesses to the configuration space of the functions on a PCI bus, by dwords, words
-- and bytes at any offset, over accesses to aligned dwords. Offsets are bytes, so that the next dword
-- behind the last one is the first. Where the parts of a word do not overlap, `|` is their sum.
pub mod Splice
pub mod Bytes
pub mod Dword
pub mod Ports
pub mod Routing
pub mod Scan
mod Tests
use sysx.Base.{
  ℕ, zero, suc, ◌+◌, ◌-◌, ◌*◌, ◌/◌, ◌%◌, ◌^◌, ◌<◌, ◌≡◌, Bool, true, false, ◌==◌, if◌then◌else◌,
  bit_or,
}

-- `pci_cfg_read_dword_aligned` and `pci_cfg_write_dword_aligned` on a state of the devices: bus,
-- device, function and offset, and the value.
pub record Config (S : Type 0) : Type 0 where
  pub read_aligned : S → ℕ → ℕ → ℕ → ℕ → ℕ
  pub write_aligned : ℕ → ℕ → ℕ → ℕ → ℕ → S → S

-- What the accesses promise for the functions of a bus: a dword reads as it was written last, and
-- the other dwords of the function as before.
pub record IsMemory {S : Type 0} (c : Config S) : Type 0 where
  pub read-lt :
      (s : S) (bus dev func offset : ℕ) → c.read_aligned s bus dev func offset < 0x1_0000_0000
  pub read-write :
      (s : S) (bus dev func offset val offset' : ℕ)
      → bus < 256
      → dev < 32
      → func < 8
      → offset < 256
      → offset' < 256
      → val < 0x1_0000_0000
      → c.read_aligned (c.write_aligned bus dev func offset val s) bus dev func offset'
        ≡ (if offset / 4 == offset' / 4 then val else c.read_aligned s bus dev func offset')

-- `offset - offset_off`, and the offset of the dword behind it.
abbrev pub dword_at : ℕ → ℕ
dword_at offset = offset - offset % 4

abbrev pub next_dword : ℕ → ℕ
next_dword offset = (dword_at offset + 4) % 256

-- `d & mask`, where the mask has zeros in the bytes from `low` on and below `high`.
abbrev pub clear_bytes : ℕ → ℕ → ℕ → ℕ
clear_bytes d low high = d % 256 ^ low + d / 256 ^ high * 256 ^ high

module _ {S : Type 0} (c : Config S) (bus dev func : ℕ) where
  abbrev pub get : S → ℕ → ℕ
  get s offset = c.read_aligned s bus dev func offset

  abbrev pub put : ℕ → ℕ → S → S
  put offset val s = c.write_aligned bus dev func offset (val % 0x1_0000_0000) s

  pub read_dword : S → ℕ → ℕ
  read_dword s offset =
      let o = offset % 4 in
      if o == 0
      then get s offset
      else get s (dword_at offset) / 256 ^ o
        + get s (next_dword offset) * 256 ^ (4 - o) % 0x1_0000_0000

  -- The second half is shifted to the left there, as the first is.
  pub write_dword : ℕ → ℕ → S → S
  write_dword offset val s =
      let o = offset % 4 in
      if o == 0
      then put offset val s
      else (let s' = put (dword_at offset) (get s (dword_at offset) % 256 ^ o + val * 256 ^ o) s in
          put (next_dword offset)
            (bit_or (clear_bytes (get s' (next_dword offset)) 0 o)
              (val * 256 ^ (4 - o) % 0x1_0000_0000))
            s')

  pub read_word : S → ℕ → ℕ
  read_word s offset =
      let o = offset % 4 in
      let low = get s (dword_at offset) / 256 ^ o % 0x1_0000 in
      if o == 3 then low + get s (next_dword offset) % 256 * 256 else low

  pub write_word : ℕ → ℕ → S → S
  write_word offset val s =
      let o = offset % 4 in
      let high = if o == 3 then 4 else o + 2 in
      let s' =
        put (dword_at offset) (clear_bytes (get s (dword_at offset)) o high + val * 256 ^ o) s in
      if o == 3
      then put (next_dword offset) (clear_bytes (get s' (next_dword offset)) 0 1 + val / 256) s'
      else s'

  pub read_byte : S → ℕ → ℕ
  read_byte s offset = get s (dword_at offset) / 256 ^ (offset % 4) % 256

  pub write_byte : ℕ → ℕ → S → S
  write_byte offset val s =
      let o = offset % 4 in
      put (dword_at offset) (clear_bytes (get s (dword_at offset)) o (o + 1) + val * 256 ^ o) s
