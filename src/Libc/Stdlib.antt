-- ===== src/Libc/Stdlib.antt =====
-- lib/stdlib.c: numbers from text, cleared memory and pseudorandom numbers. A string is the list of the
-- characters before its NUL; bases are positive.
pub mod Digits
mod Tests
use sysx.Base.{
  ℕ, zero, suc, ◌+◌, ◌-◌, ◌*◌, ◌/◌, ◌%◌, ◌^◌, Bool, true, false, not, ◌&&◌, ◌||◌, Option, none,
  some, List, [], ◌∷◌, ◌++◌, leb, ltb, ◌==◌, ◌!=◌, if◌then◌else◌, mul_size, word_mod, u64_mod,
  get_or,
}
use sysx.Base.Int.{ℤ, pos, sub_ℕ}
use sysx.Base.Memory.{Memory}
use sysx.Libc.String.{memset}

-- `kcalloc`, for what `kmalloc` returned
pub kcalloc : ℕ → ℕ → ℕ → Memory → ℕ × Memory
kcalloc ptr nitems size m = (ptr, if ptr != 0 then memset ptr 0 (mul_size nitems size) m else m)

-- A tab, a line feed, a vertical tab, a form feed, a carriage return or a blank.
abbrev is_space : ℕ → Bool
is_space c = leb 9 c && leb c 13 || c == b' '

pub skip_space : List ℕ → List ℕ
skip_space [] = []
skip_space (c ∷ cs) = let rest = skip_space cs in if is_space c then rest else c ∷ cs

pub is_minus : List ℕ → Bool
is_minus [] = false
is_minus (c ∷ cs) = c == b'-'

pub skip_sign : List ℕ → List ℕ
skip_sign [] = []
skip_sign (c ∷ cs) = if c == b'+' || c == b'-' then cs else c ∷ cs

-- The base, found from the prefix where it is 0, and the text behind the prefix.
pub detect_base : ℕ → List ℕ → ℕ × List ℕ
detect_base base str =
    if base != 0 then (base, str) else if get_or str 0 0 == b'0' then after_zero str else (10, str)
  where
    after_zero : List ℕ → ℕ × List ℕ
    after_zero [] = (10, [])
    after_zero (c ∷ []) = (8, [])
    after_zero (c ∷ (d ∷ ds)) = if d == b'x' || d == b'X' then (16, ds) else (8, d ∷ ds)

abbrev pub upper : ℕ → ℕ
upper c = if leb b'a' c && leb c b'z' then c - 32 else c

-- The value of a character that is a digit of the base.
unfoldable pub digit : ℕ → ℕ → Option ℕ
digit base c =
    let u = upper c in
    let d = if leb b'0' u && leb u b'9' then u - b'0' else u - b'A' + 10 in
    if (leb b'0' u && leb u b'9' || leb b'A' u && leb u b'Z') && ltb d base then some d else none

-- The number and the text behind it, or that the number is too large, in which case `*endptr` is
-- not written.
pub data Parsed : Type 0 where
  number : ℕ → List ℕ → Parsed
  too_large : Parsed

abbrev pub uint64_max : ℕ
uint64_max = 0xffff_ffff_ffff_ffff

-- The loop of `strtoull`, and with another limit that of `strtoll`.
pub read_digits : ℕ → ℕ → List ℕ → ℕ → Parsed
unfolding digit
read_digits limit base [] result = number result []
read_digits limit base (c ∷ cs) result = elim (digit base c) [
  | none ↦ number result (c ∷ cs)
  | some d ↦
      let rest = read_digits limit base cs (result * base + d) in
      if ltb (limit / base) result
      then too_large
      else if ltb (limit - d) (result * base)
      then too_large
      else rest
]

unfoldable pub strtoull : ℕ → List ℕ → Parsed
unfolding read_digits skip_space skip_sign detect_base
strtoull base str =
    let (base', rest) = detect_base base (skip_sign str) in
    read_digits uint64_max base' (skip_space rest) 0

abbrev pub int64_max : ℕ
int64_max = 0x7fff_ffff_ffff_ffff

-- The loop of `strtoll` for a negative number, on its magnitude. `none`: an underflow in the
-- multiplication, `some none`: one in the subtraction, for which the code returns INT64_MAX.
pub read_negative : ℕ → List ℕ → ℕ → Option (Option (ℕ × List ℕ))
unfolding digit
read_negative base [] result = some (some (result, []))
read_negative base (c ∷ cs) result = elim (digit base c) [
  | none ↦ some (some (result, c ∷ cs))
  | some d ↦
      let rest = read_negative base cs (result * base + d) in
      if ltb (2 ^ 63 / base) result
      then none
      else if ltb (2 ^ 63) (result * base + d)
      then some none
      else rest
]

-- The value, and what `*endptr` is set to, if it is.
pub strtoll : ℕ → List ℕ → ℤ × Option (List ℕ)
unfolding read_digits read_negative skip_space skip_sign is_minus detect_base
strtoll base str =
    let s = skip_space str in
    let (base', rest) = detect_base base (skip_sign s) in
    if is_minus s
    then (elim (read_negative base' rest 0) [
      | none ↦ (sub_ℕ 0 (2 ^ 63), none)
      | some o ↦ elim o [ none ↦ (pos int64_max, none) | some (n, end) ↦ (sub_ℕ 0 n, some end) ]
    ])
    else (elim (read_digits int64_max base' rest 0) [
      | number n end ↦ (pos n, some end)
      | too_large ↦ (pos int64_max, none)
    ])

-- The value that `strtoull` returns.
abbrev pub value_of : Parsed → ℕ
value_of (number n end) = n
value_of too_large = uint64_max

unfoldable pub strtoul : ℕ → List ℕ → ℕ
unfolding strtoull
strtoul base str =
    let n = value_of (strtoull base str) in if ltb 0xffff_ffff n then 0xffff_ffff else n

-- `strtol` takes the result of `strtoull` as a signed number of 64 bits.
pub strtol : ℕ → List ℕ → ℤ
unfolding strtoull
strtol base str =
    let n = value_of (strtoull base str) in
    if leb (2 ^ 63) n
    then (if ltb (2 ^ 31) (u64_mod - n) then sub_ℕ 0 (2 ^ 31) else sub_ℕ 0 (u64_mod - n))
    else (if ltb 0x7fff_ffff n then pos 0x7fff_ffff else pos n)

-- One step of the generator of the seeds.
abbrev pub lcg : ℕ → ℕ
lcg seed = (seed * 1103515245 + 12345) % word_mod

-- `srand`, from the seeds not yet changed on
pub srand : ℕ → List ℕ → List ℕ
srand seed [] = []
srand seed (s ∷ ss) = (s + lcg seed) % word_mod ∷ srand (lcg seed) ss

pub sum_seeds : List ℕ → ℕ
sum_seeds [] = 0
sum_seeds (s ∷ ss) = (s + sum_seeds ss) % word_mod

abbrev pub shift_seeds : List ℕ → ℕ → List ℕ
shift_seeds [] v = []
shift_seeds (s ∷ ss) v = ss ++ (v ∷ [])

-- The remainder of C has the sign of the number that is divided.
pub rand : ℕ → List ℕ → ℤ × List ℕ
unfolding sum_seeds
rand rand_max seeds =
    let ret = lcg (sum_seeds seeds) in
    (
      if ltb ret (2 ^ 31) then pos (ret % rand_max) else sub_ℕ 0 ((word_mod - ret) % rand_max),
      shift_seeds seeds ret,
    )
