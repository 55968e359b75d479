-- ===== src/Libc/String.antt =====
-- lib/string.c over byte memory. The memory is threaded through; what a function returns is its
-- argument `dest` or `str` where the model returns the memory alone.
pub mod Move
pub mod Fill
pub mod Strings
pub mod Compare
mod Tests
use sysx.Base.{
  ℕ, zero, suc, ◌+◌, ◌/◌, ◌%◌, ◌^◌, Bool, ◌||◌, ◌&&◌, Option, none, some, ltb, ◌==◌, if◌then◌else◌,
  add_size,
}
use sysx.Base.Memory.{Memory, update}
use sysx.Base.Int.{ℤ, pos, sub_ℕ, sub_char}

-- `for(size_t i = 0; i < n; i++) dest[i] = src[i];` from `i` on, with `left` rounds to go.
unfoldable pub copy_up : ℕ → ℕ → ℕ → ℕ → Memory → Memory
copy_up dest src i zero m = m
copy_up dest src i (suc left) m =
    copy_up dest src (i + 1) left (update m (add_size dest i) (m (add_size src i)))

-- `for(int i = n - 1; i >= 0; i--) dest[i] = src[i];` for the `n` lowest values of `i`.
unfoldable pub copy_down : ℕ → ℕ → ℕ → Memory → Memory
copy_down dest src zero m = m
copy_down dest src (suc i) m =
    copy_down dest src i (update m (add_size dest i) (m (add_size src i)))

pub memcpy : ℕ → ℕ → ℕ → Memory → Memory
memcpy dest src n m = if dest == src then m else copy_up dest src 0 n m

-- The index of the second loop is an `int`: above 2^31 bytes it starts out negative.
unfoldable pub memmove : ℕ → ℕ → ℕ → Memory → Memory
memmove dest src n m =
    if dest == src
    then m
    else if ltb dest src
    then copy_up dest src 0 n m
    else if ltb (2 ^ 31) n
    then m
    else copy_down dest src n m

pub fill : ℕ → ℕ → ℕ → ℕ → Memory → Memory
fill str c i zero m = m
fill str c i (suc left) m = fill str c (i + 1) left (update m (add_size str i) (c % 256))

pub memset : ℕ → ℕ → ℕ → Memory → Memory
unfolding fill
memset str c n m = fill str c 0 n m

-- `*(uint16_t*)p = c` on a little-endian machine
abbrev pub store16 : ℕ → ℕ → Memory → Memory
store16 p c m = update (update m p (c % 256)) (add_size p 1) (c / 256 % 256)

unfoldable pub fill16 : ℕ → ℕ → ℕ → ℕ → Memory → Memory
fill16 str c i zero m = m
fill16 str c i (suc left) m = fill16 str c (i + 1) left (store16 (add_size str i) c m)

unfoldable pub memset16 : ℕ → ℕ → ℕ → Memory → Memory
unfolding fill16
memset16 str c n m = fill16 str c 0 n m

abbrev pub store32 : ℕ → ℕ → Memory → Memory
store32 p c m = store16 (add_size p 2) (c / 2 ^ 16) (store16 p (c % 2 ^ 16) m)

unfoldable pub fill32 : ℕ → ℕ → ℕ → ℕ → Memory → Memory
fill32 str c i zero m = m
fill32 str c i (suc left) m = fill32 str c (i + 1) left (store32 (add_size str i) c m)

unfoldable pub memset32 : ℕ → ℕ → ℕ → Memory → Memory
unfolding fill32
memset32 str c n m = fill32 str c 0 n m

abbrev pub store64 : ℕ → ℕ → Memory → Memory
store64 p c m = store32 (add_size p 4) (c / 2 ^ 32) (store32 p (c % 2 ^ 32) m)

pub fill64 : ℕ → ℕ → ℕ → ℕ → Memory → Memory
fill64 str c i zero m = m
fill64 str c i (suc left) m = fill64 str c (i + 1) left (store64 (add_size str i) c m)

pub memset64 : ℕ → ℕ → ℕ → Memory → Memory
unfolding fill64
memset64 str c n m = fill64 str c 0 n m

-- From byte `i` on, with `left` bytes to go and no difference so far.
pub compare_bytes : ℕ → ℕ → ℕ → ℕ → Memory → ℤ
compare_bytes p q i zero m = pos 0
compare_bytes p q i (suc left) m =
    let a = m (add_size p i) in
    let b = m (add_size q i) in
    let rest = compare_bytes p q (i + 1) left m in if a == b then rest else sub_ℕ a b

pub memcmp : ℕ → ℕ → ℕ → Memory → ℤ
unfolding compare_bytes
memcmp p q n m = compare_bytes p q 0 n m

-- `none` in these loops means that the fuel ran out before the end of a string.
pub compare_chars : ℕ → ℕ → ℕ → ℕ → Memory → Option ℤ
compare_chars zero p q i m = none
compare_chars (suc fuel) p q i m =
    let a = m (add_size p i) in
    let b = m (add_size q i) in
    let rest = compare_chars fuel p q (i + 1) m in
    if a == 0 || b == 0 then some (sub_char a b) else if a == b then rest else some (sub_char a b)

pub strcmp : ℕ → ℕ → ℕ → Memory → Option ℤ
unfolding compare_chars
strcmp fuel p q m = if p == q then some (pos 0) else compare_chars fuel p q 0 m

pub compare_n : ℕ → ℕ → ℕ → ℕ → Memory → ℤ
compare_n p q i zero m = pos 0
compare_n p q i (suc left) m =
    let a = m (add_size p i) in
    let b = m (add_size q i) in
    let rest = compare_n p q (i + 1) left m in
    if a == 0 || b == 0 then sub_char a b else if a == b then rest else sub_char a b

pub strncmp : ℕ → ℕ → ℕ → Memory → ℤ
unfolding compare_n
strncmp p q n m = if p == q then pos 0 else compare_n p q 0 n m

-- `while(str[++ret]);` from `ret + 1 = i` on
pub length_from : ℕ → ℕ → ℕ → Memory → Option ℕ
length_from zero str i m = none
length_from (suc fuel) str i m =
    let rest = length_from fuel str (i + 1) m in if m (add_size str i) == 0 then some i else rest

pub strlen : ℕ → ℕ → Memory → Option ℕ
unfolding length_from
strlen fuel str m = length_from fuel str 0 m

pub strcpy : ℕ → ℕ → ℕ → Memory → Option Memory
strcpy fuel dest src m = elim (strlen fuel src m) [
  | none ↦ none
  | some n ↦ some (memmove dest src (add_size n 1) m)
]

pub strncpy : ℕ → ℕ → ℕ → ℕ → Memory → Option Memory
strncpy fuel dest src n m = elim (strlen fuel src m) [
  | none ↦ none
  | some len ↦ some (memmove dest src (if ltb len n then add_size len 1 else n) m)
]
