-- ===== src/Helpers/Basecol/RoundTrip.antt =====
-- `basecol_decode` reads back what `basecol_encode` writes.
use mathlib.Core.List.{reverse-cons, append_assoc}
use sysx.Base.{
  ℕ, zero, suc, ◌+◌, ◌-◌, ◌/◌, ◌%◌, ◌≤◌, ◌<◌, ◌≡◌, ◌≢◌, ◌∙◌, ap, ap₂, refl, Bool, true, false, ◌||◌,
  some, List, [], ◌∷◌, ◌++◌, reverse, arith, ◌==◌, length, word_mod, add_size, Bool-cases, inl, inr,
}
use sysx.Helpers.Basecol.{
  letter, write_digits, encode, is_upper, is_lower, take_digit, decode_loop, decode,
}
use sysx.Helpers.Basecol.Swap.{swap_loop-reverse}

-- `cs` are the characters of `n`, the last one first.
abbrev Codes : Bool → ℕ → List ℕ → Type 0
Codes upper n [] = ⊥
Codes upper n (c ∷ []) = (c ≡ letter upper (n % 26)) × (n / 26 ≡ 0)
Codes upper n (c ∷ (d ∷ cs)) =
    (c ≡ letter upper (n % 26)) × (n / 26 ≢ 0) × Codes upper (n / 26 - 1) (d ∷ cs)

Codes-cons :
    (upper : Bool) (n : ℕ) (cs : List ℕ)
    → n / 26 ≢ 0
    → Codes upper (n / 26 - 1) cs
    → Codes upper n (letter upper (n % 26) ∷ cs)
Codes-cons upper n [] more h = elim h [ ]
Codes-cons upper n (d ∷ cs) more h = (refl, more, h)

write_digits-Codes :
    (fuel n : ℕ) (upper : Bool)
    → n < fuel
    → (cs : List ℕ) × (write_digits fuel n upper ≡ some cs) × Codes upper n cs
unfolding write_digits
write_digits-Codes zero n upper enough = elim enough [ ]
write_digits-Codes (suc k) n upper enough = elim (Bool-cases (n / 26 == 0)) [
  | inl last ↦ (letter upper (n % 26) ∷ [], rw last, (refl, ground arith))
  | inr more ↦
      let (cs, e, codes) = write_digits-Codes k (n / 26 - 1) upper (ground arith) in
      (letter upper (n % 26) ∷ cs, rw (more, e), Codes-cons upper n cs (ground arith) codes)
]

length-Codes : (upper : Bool) (n : ℕ) (cs : List ℕ) → Codes upper n cs → length cs ≤ n / 26 + 1
length-Codes upper n [] h = elim h [ ]
length-Codes upper n (c ∷ []) h = omega arith
length-Codes upper n (c ∷ (d ∷ cs)) (e, more, h) =
    omega (arith, length-Codes upper (n / 26 - 1) (d ∷ cs) h)

-- The decoder takes a letter as its digit.
decode-letter :
    (upper : Bool) (d n ret : ℕ) (rest : List ℕ)
    → d < 26
    → n + 1 < word_mod
    → decode_loop (letter upper d ∷ rest) n ret ≡ decode_loop rest (n + 1) (take_digit n ret d)
unfolding decode_loop
decode-letter true d n ret rest h small =
    let e : add_size n 1 ≡ n + 1 = omega arith in
    let v : letter true d - b'A' ≡ d = omega arith in
    let up : is_upper (letter true d) ≡ true = ground arith in rw (e, v, up)
decode-letter false d n ret rest h small =
    let e : add_size n 1 ≡ n + 1 = omega arith in
    let v : letter false d - b'a' ≡ d = omega arith in
    let up : is_upper (letter false d) ≡ false = ground arith in
    let low : is_lower (letter false d) ≡ true = ground arith in rw (e, v, up, low)

decode-Codes :
    (upper : Bool) (n : ℕ) (cs rest : List ℕ)
    → n < word_mod
    → Codes upper n cs
    → decode_loop (reverse cs ++ rest) 0 0 ≡ decode_loop rest (length cs) n
decode-Codes upper n [] rest small h = elim h [ ]
decode-Codes upper n (c ∷ []) rest small (e, last) =
    let only : take_digit 0 0 (n % 26) ≡ n = unfold take_digit in ground arith in
    rw e (decode-letter upper (n % 26) 0 0 rest (omega arith) (omega arith) ∙ rw only)
decode-Codes upper n (c ∷ (d ∷ cs)) rest small (e, more, h) =
    let m = n / 26 - 1 in
    let k : length (d ∷ cs) ≤ m / 26 + 1 = length-Codes upper m (d ∷ cs) h in
    let whole : take_digit (length (d ∷ cs)) m (n % 26) ≡ n = unfold take_digit in ground arith in
    rw (reverse-cons c (d ∷ cs), append_assoc (reverse (d ∷ cs)) (c ∷ []) rest, e)
      (decode-Codes upper m (d ∷ cs) (letter upper (n % 26) ∷ rest) (omega arith) h
        ∙ decode-letter upper (n % 26) (length (d ∷ cs)) m rest (omega arith) (omega arith)
        ∙ ap₂ (decode_loop rest) (omega arith) whole)

-- The text that follows does not go on with a letter.
abbrev pub Stops : List ℕ → Type 0
Stops [] = Unit {0}
Stops (c ∷ cs) = (is_upper c || is_lower c) ≡ false

decode-Stops : (rest : List ℕ) (n ret : ℕ) → Stops rest → decode_loop rest n ret ≡ (ret, rest)
unfolding decode_loop
decode-Stops [] n ret h = refl
decode-Stops (c ∷ cs) n ret h = ground arith

-- `basecol_encode` ends, and `basecol_decode` of its result, with anything behind it that does not
-- begin with a letter, gives the number back and stops right behind it.
pub decode-encode :
    (n : ℕ) (upper : Bool) (rest : List ℕ)
    → n < word_mod
    → Stops rest
    → (cs : List ℕ) × (encode n upper ≡ some cs) × (decode (cs ++ rest) ≡ (n, rest))
unfolding encode decode
decode-encode n upper rest small stops =
    let (cs, e, codes) = write_digits-Codes (n + 1) n upper (omega arith) in
    (
      reverse cs,
      rw (e, encode) (ap some (swap_loop-reverse cs)),
      decode-Codes upper n cs rest small codes ∙ decode-Stops rest (length cs) n stops,
    )
