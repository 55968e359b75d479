-- ===== src/Libc/String/Strings.antt =====
-- NUL-terminated strings in memory, `strlen` and `strcpy`.
use sysx.Base.{
  ℕ, zero, suc, ◌+◌, ◌^◌, ◌<◌, ◌≡◌, ◌∙◌, ap, false, some, Option, List, [], ◌∷◌, arith, ◌&&◌, ltb,
  leb, add_size, word_mod, length,
}
use sysx.Base.Memory.{Memory}
use sysx.Libc.String.{length_from, strlen, strcpy, memmove}
use sysx.Libc.String.Move.{memmove_lem}

-- From `p` on the memory holds the characters `cs`, none of them NUL, and then a NUL.
abbrev pub IsString : Memory → ℕ → List ℕ → Type 0
IsString m p [] = m p ≡ 0
IsString m p (c ∷ cs) = (m p ≡ c) × (0 < c) × IsString m (p + 1) cs

-- Two memories with the same bytes at the string hold the same string.
pub IsString-same :
    (m g : Memory) (p q : ℕ) (cs : List ℕ)
    → ((i : ℕ) → i < length cs + 1 → g (q + i) ≡ m (p + i))
    → IsString m p cs
    → IsString g q cs
IsString-same m g p q [] same h = ground (arith, same 0)
IsString-same m g p q (c ∷ cs) same (e, pos, rest) = (
  ground (arith, same 0),
  pos,
  IsString-same m g (p + 1) (q + 1) cs
      (λ i h.
        let a : q + 1 + i ≡ q + (i + 1) = omega arith in
        let b : p + 1 + i ≡ p + (i + 1) = omega arith in rw (a, b) (same (i + 1) (omega arith)))
      rest,
)

length_from_lem :
    (fuel str i : ℕ) (m : Memory) (cs : List ℕ)
    → str + i + length cs < word_mod
    → length cs < fuel
    → IsString m (str + i) cs
    → length_from fuel str i m ≡ some (i + length cs)
unfolding length_from
length_from_lem zero str i m cs h enough s = elim enough [ ]
length_from_lem (suc k) str i m [] h enough s =
    let e : add_size str i ≡ str + i = omega arith in rw e (ground arith)
length_from_lem (suc k) str i m (c ∷ cs) h enough (e, pos, rest) =
    let at : add_size str i ≡ str + i = omega arith in
    let next : str + (i + 1) ≡ str + i + 1 = omega arith in
    rw at (
      ground (arith, length_from_lem k str (i + 1) m cs (omega arith) (omega arith) (rw next rest)))

-- `strlen` reads to the end of the string and returns its length.
pub strlen-length :
    (fuel str : ℕ) (m : Memory) (cs : List ℕ)
    → str + length cs < word_mod
    → length cs < fuel
    → IsString m str cs
    → strlen fuel str m ≡ some (length cs)
unfolding strlen
strlen-length fuel str m cs h enough s =
    let e : str + 0 ≡ str = omega arith in
    length_from_lem fuel str 0 m cs (omega arith) enough (rw e s) ∙ ap some (omega arith)

-- The string at `dest`, and all other bytes as before.
abbrev pub Copied : Memory → ℕ → List ℕ → Option Memory → Type 0
Copied m dest cs r =
    (g : Memory) × (r ≡ some g)
    × IsString g dest cs
    × ((a : ℕ) → (leb dest a && ltb a (dest + length cs + 1)) ≡ false → g a ≡ m a)

-- For strings of less than 2^31 characters that do not wrap round, `strcpy` leaves a copy of the
-- source string at `dest`, also where the two areas overlap, and does not touch any byte outside
-- the copy.
pub strcpy-Copied :
    (fuel dest src : ℕ) (m : Memory) (cs : List ℕ)
    → dest + length cs < word_mod
    → src + length cs < word_mod
    → length cs < 2 ^ 31
    → length cs < fuel
    → IsString m src cs
    → Copied m dest cs (strcpy fuel dest src m)
unfolding strcpy
strcpy-Copied fuel dest src m cs hd hs small enough s =
    let e : add_size (length cs) 1 ≡ length cs + 1 = omega arith in
    let read : strlen fuel src m ≡ some (length cs) = strlen-length fuel src m cs hs enough s in
    let at = memmove_lem dest src (length cs + 1) m (omega arith) (omega arith) (omega arith) in
    (
      memmove dest src (length cs + 1) m,
      rw (read, strcpy) (rw e),
      IsString-same m _ src dest cs (λ i h. at (dest + i) ∙ ground arith) s,
      λ a out. at a ∙ ground arith,
    )
