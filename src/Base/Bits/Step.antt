-- ===== src/Base/Bits/Step.antt =====
-- The native bit operations, one binary digit at a time.
use Prim.Native.Nat.{
  ℕ, zero, suc, ◌+◌, ◌-◌, ◌*◌, ◌/◌, ◌%◌, ◌≤◌, min, max, bit_and, bit_or, digits, bitwise,
  bit_and-bitwise, bit_or-bitwise,
}
use mathlib.Core.Path.{◌≡◌, refl, ap, ◌∙◌}
use native.Mathlib.Omega.{arith}

-- `◌&◌` and `◌|◌` recurse on digits, on fuel. Fuel beyond the first operand changes nothing.
module _ (rest : ℕ → ℕ) (f : ℕ → ℕ → ℕ) where
  one_more : (n a b : ℕ) → a ≤ n → digits rest f (suc n) a b ≡ digits rest f n a b
  one_more zero zero b h = refl
  one_more (suc n) zero b h = refl
  one_more zero (suc a) b h = elim h [ ]
  one_more (suc n) (suc a) b h = rw (one_more n (suc a / 2) (b / 2) (omega arith))

  surplus : (more n a b : ℕ) → a ≤ n → digits rest f (more + n) a b ≡ digits rest f n a b
  surplus zero n a b h = ap (λ k. digits rest f k a b) (omega arith)
  surplus (suc more) n a b h =
      let e : suc more + n ≡ suc (more + n) = omega arith in
      ap (λ k. digits rest f k a b) e ∙ one_more (more + n) a b (omega arith) ∙ surplus more n a b h

  halved : (a b : ℕ) → digits rest f a (suc a / 2) b ≡ bitwise rest f (suc a / 2) b
  halved a b =
      let split : a ≡ (a - suc a / 2) + suc a / 2 = omega arith in
      ap (λ n. digits rest f n (suc a / 2) b) split
      ∙ surplus (a - suc a / 2) (suc a / 2) (suc a / 2) b (omega arith)

-- The equation of one step, and the operation on a first operand 0.
pub bit_or_step : (a b : ℕ) → bit_or a b ≡ max (a % 2) (b % 2) + bit_or (a / 2) (b / 2) * 2
bit_or_step zero b = rw (bit_or-bitwise 0 b, bit_or-bitwise 0 (b / 2)) (omega arith)
bit_or_step (suc a) b =
    rw (bit_or-bitwise (suc a) b, bit_or-bitwise (suc a / 2) (b / 2))
      (omega (arith, halved (λ y. y) max a (b / 2)))

pub bit_and_step : (a b : ℕ) → bit_and a b ≡ min (a % 2) (b % 2) + bit_and (a / 2) (b / 2) * 2
bit_and_step zero b = rw (bit_and-bitwise 0 b, bit_and-bitwise 0 (b / 2)) (omega arith)
bit_and_step (suc a) b =
    rw (bit_and-bitwise (suc a) b, bit_and-bitwise (suc a / 2) (b / 2))
      (omega (arith, halved (λ y. 0) min a (b / 2)))

no_digits : (n a : ℕ) → digits (λ y. 0) min n a 0 ≡ 0
no_digits zero zero = refl
no_digits (suc n) zero = refl
no_digits zero (suc a) = refl
no_digits (suc n) (suc a) = omega (arith, no_digits n (suc a / 2))

pub bit_and-zero : (a : ℕ) → bit_and a 0 ≡ 0
bit_and-zero a = bit_and-bitwise a 0 ∙ no_digits a a
