-- ===== src/Base/Bits.antt =====
-- Single bits of a word: what `w & (1 << k)`, `w | (1 << k)` and `w & ~(1 << k)` do to each of them.
pub mod Step
use Step.{bit_and_step, bit_or_step, bit_and-zero}
use sysx.Base.Tests.{◌==◌, if◌then◌else◌}
use Prim.Native.Nat.{
  ℕ, zero, suc, ◌+◌, ◌-◌, ◌*◌, ◌/◌, ◌%◌, ◌^◌, ◌≤◌, ◌<◌, min, max, bit_and, bit_or,
}
use mathlib.Core.Path.{◌≡◌, refl, ◌∙◌}
use native.Mathlib.Omega.{arith}
use native.Mathlib.Nat.{mul_assoc}

-- Bit `k` of `w`, as 0 or 1.
abbrev pub bit_at : ℕ → ℕ → ℕ
bit_at w zero = w % 2
bit_at w (suc k) = bit_at (w / 2) k

pub bit_at-le : (w k : ℕ) → bit_at w k ≤ 1
bit_at-le w zero = omega arith
bit_at-le w (suc k) = bit_at-le (w / 2) k

pub bit_at-zero : (k : ℕ) → bit_at 0 k ≡ 0
bit_at-zero zero = refl
bit_at-zero (suc k) = bit_at-zero k

bit_at-bit_and : (a b k : ℕ) → bit_at (bit_and a b) k ≡ min (bit_at a k) (bit_at b k)
bit_at-bit_and a b zero = omega (arith, bit_and_step a b)
bit_at-bit_and a b (suc k) =
    let e : bit_and a b / 2 ≡ bit_and (a / 2) (b / 2) = omega (arith, bit_and_step a b) in
    rw e (bit_at-bit_and (a / 2) (b / 2) k)

pub bit_at-bit_or : (a b k : ℕ) → bit_at (bit_or a b) k ≡ max (bit_at a k) (bit_at b k)
bit_at-bit_or a b zero = omega (arith, bit_or_step a b)
bit_at-bit_or a b (suc k) =
    let e : bit_or a b / 2 ≡ bit_or (a / 2) (b / 2) = omega (arith, bit_or_step a b) in
    rw e (bit_at-bit_or (a / 2) (b / 2) k)

bit_at-pow : (j k : ℕ) → bit_at (2 ^ j) k ≡ (if j == k then 1 else 0)
bit_at-pow zero zero = refl
bit_at-pow zero (suc k) = ground (arith, bit_at-zero k)
bit_at-pow (suc j) zero = ground arith
bit_at-pow (suc j) (suc k) =
    let e : 2 ^ suc j / 2 ≡ 2 ^ j = omega arith in rw e (ground (arith, bit_at-pow j k))

-- `~a` on `n` bits.
abbrev pub complement : ℕ → ℕ → ℕ
complement n a = 2 ^ n - 1 - a

pub pow_pos : (n : ℕ) → 1 ≤ 2 ^ n
pow_pos zero = omega arith
pow_pos (suc n) = omega (arith, pow_pos n)

bit_at-complement : (n a k : ℕ) → k < n → a < 2 ^ n → bit_at (complement n a) k ≡ 1 - bit_at a k
bit_at-complement zero a k h ha = absurd (omega arith)
bit_at-complement (suc n) a zero h ha = omega (arith, pow_pos n)
bit_at-complement (suc n) a (suc k) h ha =
    let e : complement (suc n) a / 2 ≡ complement n (a / 2) = omega (arith, pow_pos n) in
    rw e (bit_at-complement n (a / 2) k (omega arith) (omega arith))

-- A word of `n` ones has each of them set.
pub bit_at-ones : (n k : ℕ) → k < n → bit_at (2 ^ n - 1) k ≡ 1
bit_at-ones n k h =
    let e : 2 ^ n - 1 ≡ complement n 0 = omega arith in
    rw (e, bit_at-complement n 0 k h (pow_pos n), bit_at-zero k)

bit_and-pow_suc : (w k : ℕ) → bit_and w (2 ^ suc k) ≡ bit_and (w / 2) (2 ^ k) * 2
bit_and-pow_suc w k =
    let e : 2 ^ suc k / 2 ≡ 2 ^ k = omega arith in
    let low : 2 ^ suc k % 2 ≡ 0 = omega arith in
    bit_and_step w (2 ^ suc k) ∙ rw (e, low) (omega arith)

-- `w & (1 << k)` is the bit in its place.
pub bit_and-pow : (w k : ℕ) → bit_and w (2 ^ k) ≡ bit_at w k * 2 ^ k
bit_and-pow w zero = omega (arith, bit_and_step w 1, bit_and-zero (w / 2))
bit_and-pow w (suc k) =
    let double : 2 ^ suc k ≡ 2 ^ k * 2 = omega arith in
    bit_and-pow_suc w k ∙ rw (bit_and-pow (w / 2) k, double) (omega arith)

pow-lt : (j n : ℕ) → j < n → 2 ^ j < 2 ^ n
pow-lt j zero h = absurd (omega arith)
pow-lt zero (suc n) h = omega (arith, pow_pos n)
pow-lt (suc j) (suc n) h = omega (arith, pow-lt j n (omega arith))

-- `w | (1 << j)` sets bit `j` and no other.
pub bit_at-set : (w j k : ℕ) → bit_at (bit_or w (2 ^ j)) k ≡ (if j == k then 1 else bit_at w k)
bit_at-set w j k = ground (arith, bit_at-bit_or w (2 ^ j) k, bit_at-pow j k, bit_at-le w k)

-- `w & ~(1 << j)` on `n` bits clears bit `j` and no other of them.
pub bit_at-clear :
    (n w j k : ℕ)
    → j < n
    → k < n
    → bit_at (bit_and w (complement n (2 ^ j))) k ≡ (if j == k then 0 else bit_at w k)
bit_at-clear n w j k hj hk = ground (
  arith,
  bit_at-bit_and w (complement n (2 ^ j)) k,
  bit_at-complement n (2 ^ j) k hk (pow-lt j n hj),
  bit_at-pow j k,
  bit_at-le w k,
)

bit_or-double : (a b : ℕ) → bit_or (a * 2) (b * 2) ≡ bit_or a b * 2
bit_or-double a b =
    let ha : a * 2 / 2 ≡ a = omega arith in
    let hb : b * 2 / 2 ≡ b = omega arith in
    let la : a * 2 % 2 ≡ 0 = omega arith in
    let lb : b * 2 % 2 ≡ 0 = omega arith in
    bit_or_step (a * 2) (b * 2) ∙ rw (ha, hb, la, lb) (omega arith)

-- `a << 8 | b << 8` is `(a | b) << 8`.
pub bit_or-byte : (a b : ℕ) → bit_or (a * 256) (b * 256) ≡ bit_or a b * 256
bit_or-byte a b = go 8 a b
  where
    go : (k a b : ℕ) → bit_or (a * 2 ^ k) (b * 2 ^ k) ≡ bit_or a b * 2 ^ k
    go zero a b =
        let ea : a * 1 ≡ a = omega arith in
        let eb : b * 1 ≡ b = omega arith in rw (ea, eb) (omega arith)
    go (suc k) a b =
        let p : 2 ^ suc k ≡ 2 ^ k * 2 = omega arith in
        rw (p, ← mul_assoc a (2 ^ k) 2, ← mul_assoc b (2 ^ k) 2, ← mul_assoc (bit_or a b) (2 ^ k) 2)
          (bit_or-double (a * 2 ^ k) (b * 2 ^ k) ∙ rw (go k a b) refl)
