-- ===== src/Libc/String/Compare.antt =====
-- `memcmp` and `strcmp`: zero means equal.
use sysx.Base.{
  ℕ, zero, suc, ◌+◌, ◌≤◌, ◌<◌, ◌≡◌, ◌↔◌, ◌≢◌, ap, refl, some, Option, List, [], ◌∷◌, arith,
  Bool-cases, inl, inr, true, false, ==_iff, ◌==◌, ◌||◌, if◌then◌else◌, add_size, word_mod, length,
}
use sysx.Base.Memory.{Memory}
use sysx.Base.Int.{ℤ, pos, sub_char, sub_ℕ-zero_iff, sub_char-zero_iff}
use sysx.Libc.String.{compare_bytes, memcmp, compare_chars, strcmp}
use sysx.Libc.String.Strings.{IsString}

abbrev pub SameBytes : Memory → ℕ → ℕ → ℕ → Type 0
SameBytes m p q n = (j : ℕ) → j < n → m (p + j) ≡ m (q + j)

SameBytes-suc :
    (m : Memory) (p q n : ℕ)
    → SameBytes m p q (suc n) ↔ ((m p ≡ m q) × SameBytes m (p + 1) (q + 1) n)
SameBytes-suc m p q n = (split, join)
  where
    split : SameBytes m p q (suc n) → (m p ≡ m q) × SameBytes m (p + 1) (q + 1) n
    split h = (ground (arith, h 0), λ j lt. ground (arith, h (j + 1)))

    join : (m p ≡ m q) × SameBytes m (p + 1) (q + 1) n → SameBytes m p q (suc n)
    join (e, h) zero lt = ground arith
    join (e, h) (suc j) lt = ground (arith, h j)

compare_bytes_lem :
    (p q i left : ℕ) (m : Memory)
    → p + i + left ≤ word_mod
    → q + i + left ≤ word_mod
    → (compare_bytes p q i left m ≡ pos 0) ↔ SameBytes m (p + i) (q + i) left
unfolding compare_bytes
compare_bytes_lem p q i zero m hp hq = (λ _ j h. elim h [ ], λ _. refl)
compare_bytes_lem p q i (suc left) m hp hq =
    let at_p : add_size p i ≡ p + i = omega arith in
    let at_q : add_size q i ≡ q + i = omega arith in
    let next_p : p + (i + 1) ≡ p + i + 1 = omega arith in
    let next_q : q + (i + 1) ≡ q + i + 1 = omega arith in
    let rest = compare_bytes_lem p q (i + 1) left m (omega arith) (omega arith) in
    let step = SameBytes-suc m (p + i) (q + i) left in
    rw (at_p, at_q)
      (elim (Bool-cases (m (p + i) == m (q + i))) [
        | inl same ↦ rw same (
          λ h. step.1 ((==_iff _ _).0 same, rw (next_p, next_q) at (rest.0 h)),
          λ h. rest.1 (rw (next_p, next_q) (step.0 h).1),
        )
        | inr differ ↦ rw differ (
          λ h. absurd (ground (arith, (sub_ℕ-zero_iff (m (p + i)) (m (q + i))).0 h)),
          λ h. absurd (ground (arith, (step.0 h).0)),
        )
      ])

-- For areas that do not wrap round, `memcmp` returns 0 exactly if the two hold the same `n` bytes.
pub memcmp-zero_iff :
    (p q n : ℕ) (m : Memory)
    → p + n ≤ word_mod
    → q + n ≤ word_mod
    → (memcmp p q n m ≡ pos 0) ↔ ((j : ℕ) → j < n → m (p + j) ≡ m (q + j))
unfolding memcmp
memcmp-zero_iff p q n m hp hq =
    let e : p + 0 ≡ p = omega arith in
    let e' : q + 0 ≡ q = omega arith in
    rw (e, e') at (compare_bytes_lem p q 0 n m (omega arith) (omega arith))

abbrev pub IsByteMemory : Memory → Type 0
IsByteMemory m = (a : ℕ) → m a < 256

compare_chars-suc :
    (k p q i : ℕ) (m : Memory) (a b : ℕ)
    → p + i < word_mod
    → q + i < word_mod
    → m (p + i) ≡ a
    → m (q + i) ≡ b
    → compare_chars (suc k) p q i m ≡ (
        if a == 0 || b == 0
        then some (sub_char a b)
        else if a == b
        then compare_chars k p q (i + 1) m
        else some (sub_char a b))
unfolding compare_chars
compare_chars-suc k p q i m a b hp hq ea eb =
    let at_p : add_size p i ≡ p + i = omega arith in
    let at_q : add_size q i ≡ q + i = omega arith in rw (at_p, at_q, ea, eb)

-- What a comparison of the strings `cs` and `ds` has to come to.
abbrev Decides : List ℕ → List ℕ → Option ℤ → Type 0
Decides cs ds o = (r : ℤ) × (o ≡ some r) × ((r ≡ pos 0) ↔ (cs ≡ ds))

Decides-differ :
    (a b : ℕ) (cs ds : List ℕ)
    → a < 256
    → b < 256
    → a ≢ b
    → cs ≢ ds
    → Decides cs ds (some (sub_char a b))
Decides-differ a b cs ds ha hb ne ne' = (
  sub_char a b,
  refl,
  (λ h. absurd (ne ((sub_char-zero_iff a b ha hb).0 h)), λ h. absurd (ne' h)),
)

Decides-cons :
    (c : ℕ) (cs ds : List ℕ) (o : Option ℤ) → Decides cs ds o → Decides (c ∷ cs) (c ∷ ds) o
Decides-cons c cs ds o (r, e, d) = (r, e, (λ h. ap (◌∷◌ c) (d.0 h), λ h. d.1 (cc)))

compare_chars_lem :
    (fuel p q i : ℕ) (m : Memory) (cs ds : List ℕ)
    → IsByteMemory m
    → p + i + length cs < word_mod
    → q + i + length ds < word_mod
    → length cs < fuel
    → IsString m (p + i) cs
    → IsString m (q + i) ds
    → Decides cs ds (compare_chars fuel p q i m)
compare_chars_lem zero p q i m cs ds bytes hp hq enough s t = elim enough [ ]
compare_chars_lem (suc k) p q i m [] [] bytes hp hq enough s t =
    rw (compare_chars-suc k p q i m 0 0 (omega arith) (omega arith) s t)
      (pos 0, (unfold sub_char in refl), (λ _. refl, λ _. refl))
compare_chars_lem (suc k) p q i m [] (d ∷ ds) bytes hp hq enough s (e, nz, t) =
    rw (compare_chars-suc k p q i m 0 d (omega arith) (omega arith) s e)
      (Decides-differ 0 d [] (d ∷ ds) (omega arith) (rw e at (bytes (q + i))) (omega arith) (cc))
compare_chars_lem (suc k) p q i m (c ∷ cs) [] bytes hp hq enough (e, nz, s) t =
    let end : (c == 0 || true) ≡ true = ground arith in
    rw (compare_chars-suc k p q i m c 0 (omega arith) (omega arith) e t, end)
      (Decides-differ c 0 (c ∷ cs) [] (rw e at (bytes (p + i))) (omega arith) (omega arith) (cc))
compare_chars_lem (suc k) p q i m (c ∷ cs) (d ∷ ds) bytes hp hq enough (e, nz, s) (e', nz', t) =
    let more : (c == 0 || d == 0) ≡ false = ground arith in
    let next_p : p + (i + 1) ≡ p + i + 1 = omega arith in
    let next_q : q + (i + 1) ≡ q + i + 1 = omega arith in
    let rest =
      compare_chars_lem k p q (i + 1) m cs ds bytes (omega arith) (omega arith) (omega arith)
        (rw next_p s) (rw next_q t) in
    rw (compare_chars-suc k p q i m c d (omega arith) (omega arith) e e', more)
      (elim (Bool-cases (c == d)) [
        | inl same ↦ let eq : d ≡ c = ground arith in rw (same, eq) (Decides-cons c cs ds _ rest)
        | inr differ ↦ rw differ (
            Decides-differ c d (c ∷ cs) (d ∷ ds) (rw e at (bytes (p + i)))
              (rw e' at (bytes (q + i))) (ground arith) (λ h. ground arith))
      ])

-- A string in memory is determined by its address.
IsString-unique :
    (m : Memory) (p : ℕ) (cs ds : List ℕ) → IsString m p cs → IsString m p ds → cs ≡ ds
IsString-unique m p [] [] s t = refl
IsString-unique m p [] (d ∷ ds) s (e, nz, t) = absurd (omega arith)
IsString-unique m p (c ∷ cs) [] (e, nz, s) t = absurd (omega arith)
IsString-unique m p (c ∷ cs) (d ∷ ds) (e, nz, s) (e', nz', t) =
    let rest = IsString-unique m (p + 1) cs ds s t in cc

-- For strings that do not wrap round in a memory of bytes, `strcmp` ends, and returns 0 exactly if
-- the strings are equal.
pub strcmp-zero_iff :
    (fuel p q : ℕ) (m : Memory) (cs ds : List ℕ)
    → IsByteMemory m
    → p + length cs < word_mod
    → q + length ds < word_mod
    → length cs < fuel
    → IsString m p cs
    → IsString m q ds
    → (r : ℤ) × (strcmp fuel p q m ≡ some r) × ((r ≡ pos 0) ↔ (cs ≡ ds))
unfolding strcmp
strcmp-zero_iff fuel p q m cs ds bytes hp hq enough s t =
    let e : p + 0 ≡ p = omega arith in
    let e' : q + 0 ≡ q = omega arith in
    elim (Bool-cases (p == q)) [
      | inl same ↦
          let eq : q ≡ p = ground arith in
          let equal = IsString-unique m p cs ds s (rw eq at t) in
          (pos 0, rw (same, strcmp), (λ _. equal, λ _. refl))
      | inr differ ↦
          rw (differ, strcmp)
            (compare_chars_lem fuel p q 0 m cs ds bytes (omega arith) (omega arith) enough (rw e s)
              (rw e' t))
    ]
