-- ===== src/Base/Int.antt =====
-- Signed integers over the native numbers: `negsuc n` is -(n + 1).
use sysx.Base.Tests.{ltb, leb, if◌then◌else◌}
use Prim.Native.Nat.{ℕ, ◌+◌, ◌-◌, ◌<◌}
use mathlib.Core.Path.{◌≡◌}
use mathlib.Core.Logic.{◌↔◌}
use native.Mathlib.Omega.{arith}

pub data ℤ : Type 0 where
  pos : ℕ → ℤ
  negsuc : ℕ → ℤ

-- a - b, as an integer.
unfoldable pub sub_ℕ : ℕ → ℕ → ℤ
sub_ℕ a b = if leb b a then pos (a - b) else negsuc (b - a - 1)

-- The difference of two `char`s, which are signed bytes on this target: both are moved up by 128.
unfoldable pub sub_char : ℕ → ℕ → ℤ
unfolding sub_ℕ
sub_char a b = sub_ℕ (shift a) (shift b)
  where
    shift : ℕ → ℕ
    shift c = if ltb c 128 then c + 128 else c - 128

pub sub_ℕ-zero_iff : (a b : ℕ) → (sub_ℕ a b ≡ pos 0) ↔ (a ≡ b)
unfolding sub_ℕ
sub_ℕ-zero_iff a b = ground arith

pub sub_char-zero_iff : (a b : ℕ) → a < 256 → b < 256 → (sub_char a b ≡ pos 0) ↔ (a ≡ b)
unfolding sub_char
sub_char-zero_iff a b ha hb = ground arith
