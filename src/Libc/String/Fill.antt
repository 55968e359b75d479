-- ===== src/Libc/String/Fill.antt =====
-- `memset` and `memset16`
use sysx.Base.{
  ℕ, zero, suc, ◌+◌, ◌-◌, ◌/◌, ◌%◌, ◌≤◌, ◌<◌, ◌≡◌, arith, ◌&&◌, ltb, leb, ◌==◌, if◌then◌else◌,
  add_size, word_mod,
}
use sysx.Base.Memory.{Memory, update}
use sysx.Libc.String.{fill, memset, store16, fill16, memset16}

fill_lem :
    (str c i left : ℕ) (m : Memory) (a : ℕ)
    → str + i + left ≤ word_mod
    → fill str c i left m a ≡ (if leb (str + i) a && ltb a (str + i + left) then c % 256 else m a)
unfolding fill
fill_lem str c i zero m a h = ground arith
fill_lem str c i (suc left) m a h =
    ground (arith, fill_lem str c (i + 1) left (update m (add_size str i) (c % 256)) a)

-- `memset` writes the low byte of `c` to the `n` bytes from `str` on, and to no other.
pub memset_lem :
    (str c n : ℕ) (m : Memory)
    → str + n ≤ word_mod
    → (a : ℕ) → memset str c n m a ≡ (if leb str a && ltb a (str + n) then c % 256 else m a)
unfolding memset
memset_lem str c n m h a = ground (arith, fill_lem str c 0 n m a)

-- After at least one round the low byte fills the area, and the high byte stands behind it.
fill16_lem :
    (str c i left : ℕ) (m : Memory) (a : ℕ)
    → str + i + left + 1 < word_mod
    → fill16 str c i (suc left) m a ≡ (
        if leb (str + i) a && ltb a (str + i + suc left)
        then c % 256
        else if a == str + i + suc left
        then c / 256 % 256
        else m a)
unfolding fill16
fill16_lem str c i zero m a h =
    let e : add_size str i ≡ str + i = omega arith in
    let e' : add_size (str + i) 1 ≡ str + i + 1 = omega arith in rw (e, e') (ground arith)
fill16_lem str c i (suc left) m a h =
    let e : add_size str i ≡ str + i = omega arith in
    let e' : add_size (str + i) 1 ≡ str + i + 1 = omega arith in
    rw (e, e') (ground (arith, fill16_lem str c (i + 1) left (store16 (str + i) c m) a))

-- For an area that does not wrap round and at least one character, `memset16` steps by one byte:
-- from `str` on it leaves `n` low bytes of `c` and one high byte, and everything else as it was,
-- where `n` characters of two bytes were asked for.
pub memset16_lem :
    (str c n : ℕ) (m : Memory)
    → 0 < n
    → str + n < word_mod
    → (a : ℕ)
    → memset16 str c n m a ≡ (
        if leb str a && ltb a (str + n)
        then c % 256
        else if a == str + n
        then c / 256 % 256
        else m a)
unfolding memset16
memset16_lem str c n m pos h a =
    let e : n ≡ suc (n - 1) = omega arith in rw e (ground (arith, fill16_lem str c 0 (n - 1) m a))
