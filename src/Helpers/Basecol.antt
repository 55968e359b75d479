-- ===== src/Helpers/Basecol.antt =====
-- helpers/basecol.c: numbers in the notation of spreadsheet columns, A to Z, AA and so on. The buffer
-- is the list of the characters before its NUL.
pub mod Swap
pub mod RoundTrip
mod Tests
use sysx.Base.{
  ℕ, zero, suc, ◌+◌, ◌-◌, ◌/◌, ◌%◌, Bool, ◌&&◌, Option, none, some, List, [], ◌∷◌, leb, ◌==◌, ◌!=◌,
  if◌then◌else◌, add_size, mul_size, length, get_or, set,
}

abbrev pub letter : Bool → ℕ → ℕ
letter upper d = d + (if upper then b'A' else b'a')

-- The characters in the order in which the first loop writes them. `none`: out of fuel.
pub write_digits : ℕ → ℕ → Bool → Option (List ℕ)
write_digits zero n upper = none
write_digits (suc fuel) n upper =
    let c = letter upper (n % 26) in
    let rest = write_digits fuel (n / 26 - 1) upper in
    if n / 26 == 0 then some (c ∷ []) else elim rest [ none ↦ none | some cs ↦ some (c ∷ cs) ]

-- `for(size_t i = 0; i < off / 2; i++)` swaps the characters `i` and `off - 1 - i`; `left` rounds to go.
pub swap_loop : ℕ → ℕ → ℕ → List ℕ → List ℕ
swap_loop off i zero buf = buf
swap_loop off i (suc left) buf =
    let t = get_or buf i 0 in
    let buf' = set buf i (get_or buf (off - 1 - i) 0) in
    swap_loop off (i + 1) left (set buf' (off - 1 - i) t)

-- A digit is at most 26 times as small as the number, so `n + 1` rounds are enough.
pub encode : ℕ → Bool → Option (List ℕ)
unfolding write_digits swap_loop
encode n upper = elim (write_digits (n + 1) n upper) [
  | none ↦ none
  | some buf ↦ some (swap_loop (length buf) 0 (length buf / 2) buf)
]

abbrev pub is_upper : ℕ → Bool
is_upper c = leb b'A' c && leb c b'Z'

abbrev pub is_lower : ℕ → Bool
is_lower c = leb b'a' c && leb c b'z'

-- `if(n) ret = (ret + 1) * 26; ret += digit;`
pub take_digit : ℕ → ℕ → ℕ → ℕ
take_digit n ret digit = add_size (if n != 0 then mul_size (add_size ret 1) 26 else ret) digit

-- The result and what `*endptr` points to. The end of the list stands for the NUL.
pub decode_loop : List ℕ → ℕ → ℕ → ℕ × List ℕ
decode_loop [] n ret = (ret, [])
decode_loop (c ∷ cs) n ret =
    let up = decode_loop cs (add_size n 1) (take_digit n ret (c - b'A')) in
    let low = decode_loop cs (add_size n 1) (take_digit n ret (c - b'a')) in
    if is_upper c then up else if is_lower c then low else (ret, c ∷ cs)

pub decode : List ℕ → ℕ × List ℕ
unfolding decode_loop
decode str = decode_loop str 0 0
