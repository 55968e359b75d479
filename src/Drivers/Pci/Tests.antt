-- ===== src/Drivers/Pci/Tests.antt =====
-- Accesses by the ports of an x86, and a bus with one network card.
use sysx.Base.{
  ℕ, ◌+◌, ◌%◌, ◌^◌, ◌-◌, ◌<◌, ◌≡◌, ◌≢◌, refl, true, false, some, [], ◌∷◌, ◌==◌, if◌then◌else◌,
  Bool-cases, inl, inr, arith,
}
use sysx.Drivers.Pci.{Config, read_byte, read_word, write_word, read_dword, write_dword, write_byte}
use sysx.Drivers.Pci.Splice.{byte}
use sysx.Drivers.Pci.Bytes.{read_word-write_word}
use sysx.Drivers.Pci.Dword.{read_dword-write_dword}
use sysx.Drivers.Pci.Ports.{Ports, ports, read_dword_aligned, write_dword_aligned, ports-IsMemory}
use sysx.Drivers.Pci.Scan.{Tree, is_multifunction, scan_bus, init}
use sysx.Drivers.Pci.Scan.Finds.{
  with_found, registers, has_more, leads_on, found_devs, scan_bus-found, init-multiple,
}

abbrev blank : Ports
blank = record { address = 0; device = λ a. 0xaabb_ccdd }

-- A word across two dwords.
read_word-write_word_example :
    (read_word ports 0 3 0 (write_word ports 0 3 0 0x13 0x1234 blank) 0x13 ≡ 0x1234)
    × ((a : ℕ)
        → a < 256
        → a ≢ 0x13
        → a ≢ (0x13 + 1) % 256
        → read_byte ports 0 3 0 (write_word ports 0 3 0 0x13 0x1234 blank) a
          ≡ read_byte ports 0 3 0 blank a)
read_word-write_word_example =
    read_word-write_word ports ports-IsMemory 0 3 0 blank 0x13 0x1234 (omega arith) (omega arith)
      (omega arith) (omega arith) (omega arith)

read_dword-write_dword_example :
    (let r = read_dword ports 0 3 0 (write_dword ports 0 3 0 0x12 0x1234_5678 blank) 0x12 in
      let left = 4 - 0x12 % 4 in
      (0x12 % 4 ≡ 0 → r ≡ 0x1234_5678)
      × (0x12 % 4 ≢ 0 → (r % 256 ^ left ≡ 0x1234_5678 % 256 ^ left) × (byte r left ≡ 0)))
read_dword-write_dword_example =
    read_dword-write_dword ports ports-IsMemory 0 3 0 blank 0x12 0x1234_5678 (omega arith)
      (omega arith) (omega arith) (omega arith) (omega arith)

written_byte : read_byte ports 0 3 0 (write_byte ports 0 3 0 0x11 0x42 blank) 0x11 ≡ 0x42
unfolding read_byte write_byte read_dword_aligned write_dword_aligned
written_byte = refl

-- Device 3 is a network card; nothing else answers.
abbrev card : Config ℕ
card = record {
  read_aligned = λ s bus dev func offset.
      if dev == 3 then (if offset == 0 then 0x100e_8086 else 0x0200_0000) else 0xffff_ffff;
  write_aligned = λ bus dev func offset val s. s;
}

abbrev roots : Tree
roots = record { geo = []; ids = []; answers = [] }

no_bridge : (dev func : ℕ) → leads_on card 0 0 dev func ≡ false
unfolding read_byte
no_bridge dev func = elim (Bool-cases (dev == 3)) [
  | inl at ↦ rw at refl
  | inr other ↦ rw other refl
]

scan_bus-found_example :
    scan_bus card 0 4 0 roots ≡ some (with_found (found_devs card 0 0 32 0) roots)
scan_bus-found_example =
    scan_bus-found card 0 0 3 roots (λ dev func offset. ground arith) no_bridge refl

one_card : found_devs card 0 0 32 0 ≡ registers card 0 0 3 0 ∷ []
unfolding found_devs has_more read_word read_byte
one_card = refl

-- Two host controllers.
abbrev hosts : Config ℕ
hosts = record {
  read_aligned = λ s bus dev func offset. 0x0080_8086;
  write_aligned = λ bus dev func offset val s. s;
}

several : is_multifunction hosts 0 0 0 0 ≡ true
unfolding is_multifunction read_byte
several = refl

vendor_there : read_word hosts 0 0 0 0 0 ≢ 0xffff
unfolding read_word
vendor_there e = omega arith

init-multiple_example : init hosts 0 4 roots ≡ some roots
init-multiple_example = init-multiple hosts 0 4 roots several vendor_there
