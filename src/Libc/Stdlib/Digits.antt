-- ===== src/Libc/Stdlib/Digits.antt =====
-- The loop of `strtoull` against the value of the digits that it reads.
use native.Mathlib.Nat.{mul-le-mul_left, div-lt_iff_lt-mul}
use sysx.Base.{
  ℕ, ◌+◌, ◌-◌, ◌*◌, ◌/◌, ◌≤◌, ◌<◌, ◌≡◌, false, none, some, List, [], ◌∷◌, ◌++◌, arith, leb, ltb,
  if◌then◌else◌, Bool-cases, ltb→lt, inl, inr,
}
use sysx.Libc.Stdlib.{number, too_large, digit, read_digits}

-- What the digits stand for, behind digits that stand for `acc`.
abbrev pub value : ℕ → ℕ → List ℕ → ℕ
value base acc [] = acc
value base acc (d ∷ ds) = value base (acc * base + d) ds

-- The characters are these digits of the base.
unfoldable pub AreDigits : ℕ → List ℕ → List ℕ → Type 0
AreDigits base [] [] = Unit {0}
AreDigits base [] (d ∷ ds) = ⊥
AreDigits base (c ∷ cs) [] = ⊥
AreDigits base (c ∷ cs) (d ∷ ds) = (digit base c ≡ some d) × (d < base) × AreDigits base cs ds

-- The text does not go on with a digit.
unfoldable pub Ends : ℕ → List ℕ → Type 0
Ends base [] = Unit {0}
Ends base (c ∷ cs) = digit base c ≡ none

value-ge : (base acc : ℕ) (ds : List ℕ) → 0 < base → acc ≤ value base acc ds
value-ge base acc [] pos = omega arith
value-ge base acc (d ∷ ds) pos =
    omega (arith, value-ge base (acc * base + d) ds pos, mul-le-mul_left {m = 1} {n = base} acc pos)

-- The loop of `strtoull`, with a limit no smaller than the base, reads the digits up to where they
-- end, and gives their value, or says that it is too large exactly if it is above the limit.
pub read_digits-value :
    (limit base acc : ℕ) (cs ds rest : List ℕ)
    → 0 < base
    → base ≤ limit
    → acc ≤ limit
    → AreDigits base cs ds
    → Ends base rest
    → read_digits limit base (cs ++ rest) acc
      ≡ (if leb (value base acc ds) limit then number (value base acc ds) rest else too_large)
unfolding read_digits AreDigits Ends
read_digits-value limit base acc [] [] [] pos fits small digits ends = ground arith
read_digits-value limit base acc [] [] (c ∷ cs) pos fits small digits ends =
    rw (ends, read_digits) (ground arith)
read_digits-value limit base acc [] (d ∷ ds) rest pos fits small digits ends = elim digits [ ]
read_digits-value limit base acc (c ∷ cs) [] rest pos fits small digits ends = elim digits [ ]
read_digits-value limit base acc (c ∷ cs) (d ∷ ds) rest pos fits small (e, lt, digits) ends =
    let next = acc * base + d in
    let above = value-ge base next ds pos in
    rw (e, read_digits)
      (elim (Bool-cases (ltb (limit / base) acc)) [
        | inl over ↦
            let far : limit < acc * base = (div-lt_iff_lt-mul pos).0 (ltb→lt _ _ over) in
            let out : leb (value base next ds) limit ≡ false = ground (arith, above) in
            rw (over, out)
        | inr under ↦ elim (Bool-cases (ltb (limit - d) (acc * base))) [
          | inl over ↦
              let out : leb (value base next ds) limit ≡ false = ground (arith, above) in
              rw (under, over, out)
          | inr room ↦
              rw (under, room)
                (read_digits-value limit base next cs ds rest pos fits (ground arith) digits ends)
        ]
      ])
