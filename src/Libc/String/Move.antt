-- ===== src/Libc/String/Move.antt =====
-- `memcpy` and `memmove`
use sysx.Base.{
  ℕ, zero, suc, ◌+◌, ◌-◌, ◌^◌, ◌≤◌, ◌<◌, ◌≡◌, ◌∙◌, ◌⊎◌, arith, ◌&&◌, ltb, leb, if◌then◌else◌,
  add_size, word_mod,
}
use sysx.Base.Memory.{Memory, update}
use sysx.Libc.String.{copy_up, copy_down, memcpy, memmove}

-- The byte at `a` after the `n` bytes from `src` have gone to `dest`.
abbrev pub moved : ℕ → ℕ → ℕ → Memory → ℕ → ℕ
moved dest src n m a = if leb dest a && ltb a (dest + n) then m (src + (a - dest)) else m a

copy_up-moved :
    (dest src i left : ℕ) (m : Memory) (a : ℕ)
    → dest + i + left ≤ word_mod
    → src + i + left ≤ word_mod
    → (dest < src) ⊎ (src + i + left ≤ dest)
    → copy_up dest src i left m a ≡ moved (dest + i) (src + i) left m a
unfolding copy_up
copy_up-moved dest src i zero m a hd hs apart = ground arith
copy_up-moved dest src i (suc left) m a hd hs apart =
    ground (
      arith,
      copy_up-moved dest src (i + 1) left (update m (add_size dest i) (m (add_size src i))) a,
    )

copy_down-step :
    (dest src i : ℕ) (m : Memory) (a : ℕ)
    → dest + suc i ≤ word_mod
    → src + suc i ≤ word_mod
    → src < dest
    → let m' = update m (add_size dest i) (m (add_size src i)) in
      copy_down dest src i m' a ≡ moved dest src i m' a
      → copy_down dest src (suc i) m a ≡ moved dest src (suc i) m a
unfolding copy_down
copy_down-step dest src i m a hd hs above rest =
    let ed : add_size dest i ≡ dest + i = omega arith in
    let es : add_size src i ≡ src + i = omega arith in
    rw (ed, es) (rw (ed, es) at rest ∙ ground arith)

copy_down-moved :
    (dest src n : ℕ) (m : Memory) (a : ℕ)
    → dest + n ≤ word_mod
    → src + n ≤ word_mod
    → src < dest
    → copy_down dest src n m a ≡ moved dest src n m a
unfolding copy_down
copy_down-moved dest src zero m a hd hs above = ground arith
copy_down-moved dest src (suc i) m a hd hs above = copy_down-step dest src i m a hd hs above (
    copy_down-moved dest src i (update m (add_size dest i) (m (add_size src i))) a (omega arith)
      (omega arith) above)

-- For areas that do not wrap round and at most 2^31 bytes, `memmove` moves `n` bytes as if through
-- a copy, also where the two areas overlap, and leaves every other byte alone.
pub memmove_lem :
    (dest src n : ℕ) (m : Memory)
    → dest + n ≤ word_mod
    → src + n ≤ word_mod
    → n ≤ 2 ^ 31
    → (a : ℕ)
    → memmove dest src n m a
      ≡ (if leb dest a && ltb a (dest + n) then m (src + (a - dest)) else m a)
unfolding memmove
memmove_lem dest src n m hd hs small a =
    ground (arith, copy_up-moved dest src 0 n m a, copy_down-moved dest src n m a)

-- `memcpy` does the same for areas that do not overlap, and for any that it copies downwards.
pub memcpy_lem :
    (dest src n : ℕ) (m : Memory)
    → dest + n ≤ word_mod
    → src + n ≤ word_mod
    → (dest < src) ⊎ (src + n ≤ dest)
    → (a : ℕ)
    → memcpy dest src n m a ≡ (if leb dest a && ltb a (dest + n) then m (src + (a - dest)) else m a)
unfolding memcpy
memcpy_lem dest src n m hd hs apart a = ground (arith, copy_up-moved dest src 0 n m a)
