-- ===== src/Libc/Stdlib/Tests.antt =====
-- Numbers in text.
use sysx.Base.{◌≡◌, refl, [], ◌∷◌, arith, leb, if◌then◌else◌}
use sysx.Base.Int.{pos}
use sysx.Libc.Stdlib.{number, too_large, digit, read_digits, uint64_max, strtoull, strtol}
use sysx.Libc.Stdlib.Digits.{value, AreDigits, Ends, read_digits-value}

hex : strtoull 0 (b'0' ∷ b'x' ∷ b'1' ∷ b'f' ∷ b'!' ∷ []) ≡ number 31 (b'!' ∷ [])
unfolding strtoull
hex = refl

-- The sign is skipped and forgotten.
negative : strtol 10 (b'-' ∷ b'5' ∷ []) ≡ pos 5
unfolding strtol
negative = refl

read_digits-value_example : read_digits uint64_max 16 (b'1' ∷ b'f' ∷ b'!' ∷ []) 0 ≡ (
    if leb (value 16 0 (1 ∷ 15 ∷ [])) uint64_max
    then number (value 16 0 (1 ∷ 15 ∷ [])) (b'!' ∷ [])
    else too_large)
unfolding AreDigits Ends digit
read_digits-value_example =
    read_digits-value uint64_max 16 0 (b'1' ∷ b'f' ∷ []) (1 ∷ 15 ∷ []) (b'!' ∷ []) (omega arith)
      (omega arith) (omega arith) (refl, omega arith, (refl, omega arith, tt)) refl
