-- ===== src/Drivers/Pci/Splice.antt =====
-- The bytes of a dword into which a byte or a word is put.
use sysx.Base.{ℕ, zero, suc, ◌+◌, ◌*◌, ◌/◌, ◌%◌, ◌^◌, ◌<◌, ◌≡◌, ◌==◌, if◌then◌else◌, arith}
use sysx.Drivers.Pci.{clear_bytes}

-- Byte `k` of a dword.
abbrev pub byte : ℕ → ℕ → ℕ
byte d k = d / 256 ^ k % 256

-- A byte that is put into a dword is there, and the others stay.
pub byte-put :
    (d v o k : ℕ)
    → d < 0x1_0000_0000
    → v < 256
    → o < 4
    → k < 4
    → byte ((clear_bytes d o (o + 1) + v * 256 ^ o) % 0x1_0000_0000) k
      ≡ (if o == k then v else byte d k)
byte-put d v zero zero hd hv ho hk = omega arith
byte-put d v zero (suc zero) hd hv ho hk = omega arith
byte-put d v zero (suc (suc zero)) hd hv ho hk = omega arith
byte-put d v zero (suc (suc (suc zero))) hd hv ho hk = omega arith
byte-put d v (suc zero) zero hd hv ho hk = omega arith
byte-put d v (suc zero) (suc zero) hd hv ho hk = omega arith
byte-put d v (suc zero) (suc (suc zero)) hd hv ho hk = omega arith
byte-put d v (suc zero) (suc (suc (suc zero))) hd hv ho hk = omega arith
byte-put d v (suc (suc zero)) zero hd hv ho hk = omega arith
byte-put d v (suc (suc zero)) (suc zero) hd hv ho hk = omega arith
byte-put d v (suc (suc zero)) (suc (suc zero)) hd hv ho hk = omega arith
byte-put d v (suc (suc zero)) (suc (suc (suc zero))) hd hv ho hk = omega arith
byte-put d v (suc (suc (suc zero))) zero hd hv ho hk = omega arith
byte-put d v (suc (suc (suc zero))) (suc zero) hd hv ho hk = omega arith
byte-put d v (suc (suc (suc zero))) (suc (suc zero)) hd hv ho hk = omega arith
byte-put d v (suc (suc (suc zero))) (suc (suc (suc zero))) hd hv ho hk = omega arith
byte-put d v (suc (suc (suc (suc o)))) k hd hv ho hk = absurd (omega arith)
byte-put d v o (suc (suc (suc (suc k)))) hd hv ho hk = absurd (omega arith)

-- Where the two bytes of a word at byte `o` are in its first dword, and what the second dword gets.
pub word-put :
    (d v o k : ℕ)
    → d < 0x1_0000_0000
    → v < 0x1_0000
    → o < 4
    → k < 4
    → byte ((clear_bytes d o (if o == 3 then 4 else o + 2) + v * 256 ^ o) % 0x1_0000_0000) k
      ≡ (if o == k then v % 256 else if o + 1 == k then v / 256 else byte d k)
word-put d v zero zero hd hv ho hk = omega arith
word-put d v zero (suc zero) hd hv ho hk = omega arith
word-put d v zero (suc (suc zero)) hd hv ho hk = omega arith
word-put d v zero (suc (suc (suc zero))) hd hv ho hk = omega arith
word-put d v (suc zero) zero hd hv ho hk = omega arith
word-put d v (suc zero) (suc zero) hd hv ho hk = omega arith
word-put d v (suc zero) (suc (suc zero)) hd hv ho hk = omega arith
word-put d v (suc zero) (suc (suc (suc zero))) hd hv ho hk = omega arith
word-put d v (suc (suc zero)) zero hd hv ho hk = omega arith
word-put d v (suc (suc zero)) (suc zero) hd hv ho hk = omega arith
word-put d v (suc (suc zero)) (suc (suc zero)) hd hv ho hk = omega arith
word-put d v (suc (suc zero)) (suc (suc (suc zero))) hd hv ho hk = omega arith
word-put d v (suc (suc (suc zero))) zero hd hv ho hk = omega arith
word-put d v (suc (suc (suc zero))) (suc zero) hd hv ho hk = omega arith
word-put d v (suc (suc (suc zero))) (suc (suc zero)) hd hv ho hk = omega arith
word-put d v (suc (suc (suc zero))) (suc (suc (suc zero))) hd hv ho hk = omega arith
word-put d v (suc (suc (suc (suc o)))) k hd hv ho hk = absurd (omega arith)
word-put d v o (suc (suc (suc (suc k)))) hd hv ho hk = absurd (omega arith)

-- A word is two bytes.
pub low-word :
    (d o : ℕ) → d < 0x1_0000_0000 → o < 3 → d / 256 ^ o % 0x1_0000 ≡ byte d o + 256 * byte d (o + 1)
low-word d zero hd ho = omega arith
low-word d (suc zero) hd ho = omega arith
low-word d (suc (suc zero)) hd ho = omega arith
low-word d (suc (suc (suc o))) hd ho = absurd (omega arith)
