-- ===== src/Hal/Terminal/Lines/Typed.antt =====
-- What a line that was read comes to.
use sysx.Base.{
  ℕ, suc, ◌+◌, ◌-◌, ◌<◌, ◌≤◌, ◌≡◌, refl, ◌∙◌, ◌⊎◌, inl, inr, Bool-cases, false, Option, none, some,
  List, [], ◌∷◌, ◌++◌, length, ◌==◌, if◌then◌else◌, add_size, arith, length-append, subst, sym, All,
}
use sysx.Base.Memory.{Memory, update}
use sysx.Hal.Terminal.{TermHook, Term, getc_noecho}
use sysx.Hal.Terminal.Lines.{edit_index, edit_buffer, gets_loop, gets_noecho}

-- The line that is typed, as a list: a backspace drops the last character.
abbrev pub drop_last : List ℕ → List ℕ
drop_last [] = []
drop_last (c ∷ []) = []
drop_last (c ∷ d ∷ cs) = c ∷ drop_last (d ∷ cs)

unfoldable pub typed : List ℕ → List ℕ → List ℕ
typed line [] = line
typed line (c ∷ cs) = typed (if c == 8 then drop_last line else line ++ c ∷ []) cs

-- The buffer holds the characters.
pub Holds : Memory → ℕ → List ℕ → Type 0
Holds m p [] = Unit {0}
Holds m p (c ∷ cs) = (m p ≡ c) × Holds m (p + 1) cs

length-drop_last : (line : List ℕ) → length (drop_last line) ≡ length line - 1
length-drop_last [] = refl
length-drop_last (c ∷ []) = refl
length-drop_last (c ∷ d ∷ cs) = omega (arith, length-drop_last (d ∷ cs))

Holds-drop_last : (m : Memory) (p : ℕ) (line : List ℕ) → Holds m p line → Holds m p (drop_last line)
unfolding Holds
Holds-drop_last m p [] held = tt
Holds-drop_last m p (c ∷ []) held = tt
Holds-drop_last m p (c ∷ d ∷ cs) (here, held) = (here, Holds-drop_last m (p + 1) (d ∷ cs) held)

-- A write behind the characters.
Holds-update :
    (m : Memory) (p a c : ℕ) (line : List ℕ)
    → p + length line ≤ a
    → Holds m p line
    → Holds (update m a c) p line
unfolding Holds
Holds-update m p a c [] far held = tt
Holds-update m p a c (d ∷ ds) far (here, held) =
    (ground arith, Holds-update m (p + 1) a c ds (omega arith) held)

Holds-append :
    (m : Memory) (p a c : ℕ) (line : List ℕ)
    → a ≡ p + length line
    → Holds m p line
    → Holds (update m a c) p (line ++ c ∷ [])
unfolding Holds
Holds-append m p a c [] at held = (ground arith, tt)
Holds-append m p a c (d ∷ ds) at (here, held) =
    (ground arith, Holds-append m (p + 1) a c ds (omega arith) held)

module _ {T : Type 0} (wait : ℕ) (h : Option (TermHook T)) where
  -- The characters that come one after the other from the terminal.
  pub data Reads : List ℕ → Term T → Term T → Type 0 where
    done : {s : Term T} → Reads [] s s
    next :
        {c : ℕ} {cs : List ℕ} {s s' s'' : Term T}
        → getc_noecho wait h s ≡ some (c, s')
        → Reads cs s' s''
        → Reads (c ∷ cs) s s''

  -- The memory behind the loop: the line with a NUL, and nothing changed but from `buf` to `top`.
  pub Line : ℕ → ℕ → List ℕ → Term T → Memory → Option (Term T × Memory) → Type 0
  Line buf top line s m r =
      (m' : Memory) × (r ≡ some (s, m'))
      × Holds m' buf line
      × (m' (buf + length line) ≡ 0)
      × ((a : ℕ) → (a < buf) ⊎ (top < a) → m' a ≡ m a)

  Line-wider :
      (buf top top' : ℕ) (line : List ℕ) (s : Term T) (m : Memory) (r : Option (Term T × Memory))
      → top ≤ top'
      → Line buf top line s m r
      → Line buf top' line s m r
  unfolding Line
  Line-wider buf top top' line s m r le (m', gives, held, end, same) =
      (m', gives, held, end, λ a out. same a (ground arith))

  -- A write in the range comes before.
  Line-after :
      (buf top p c : ℕ) (line : List ℕ) (s : Term T) (m : Memory) (r : Option (Term T × Memory))
      → buf ≤ p
      → p ≤ top
      → Line buf top line s (update m p c) r
      → Line buf top line s m r
  unfolding Line
  Line-after buf top p c line s m r above below (m', gives, held, end, same) =
      (m', gives, held, end, λ a out. same a out ∙ ground arith)

  gets_loop_step :
      (fuel buf c i : ℕ) (s s' : Term T) (m : Memory)
      → getc_noecho wait h s ≡ some (c, s')
      → (c == 10) ≡ false
      → gets_loop wait h (suc fuel) buf i s m
        ≡ gets_loop wait h fuel buf (edit_index c i) s' (edit_buffer buf c i m)
  unfolding gets_loop
  gets_loop_step fuel buf c i s s' m got ordinary = rw (gets_loop, got, ordinary) refl

  gets_loop-end :
      (fuel buf i : ℕ) (s s' : Term T) (m : Memory)
      → getc_noecho wait h s ≡ some (10, s')
      → gets_loop wait h (suc fuel) buf i s m ≡ some (s', update m (add_size buf i) 0)
  unfolding gets_loop
  gets_loop-end fuel buf i s s' m got = rw (gets_loop, got) refl

  gets_loop-typed :
      (buf : ℕ) (line cs : List ℕ) (s s1 s2 : Term T) (m : Memory)
      → Reads cs s s1
      → All (λ c. (c == 10) ≡ false) cs
      → getc_noecho wait h s1 ≡ some (10, s2)
      → buf + (length line + length cs) < 0x1_0000_0000
      → Holds m buf line
      → Line buf
          (buf + (length line + length cs))
          (typed line cs)
          s2
          m
          (gets_loop wait h (suc (length cs)) buf (length line) s m)
  unfolding typed Line
  gets_loop-typed buf line [] s s1 s2 m done plain end room held =
      let at : add_size buf (length line) ≡ buf + length line = omega arith in
      rw (gets_loop-end 0 buf (length line) s s2 m end, at)
        (
          update m (buf + length line) 0,
          refl,
          Holds-update m buf (buf + length line) 0 line (omega arith) held,
          ground arith,
          λ a out. ground arith,
        )
  gets_loop-typed buf line (c ∷ cs) s s1 s2 m (next got more) (ordinary, plain) end room held =
      let at : add_size buf (length line) ≡ buf + length line = omega arith in
      let back = length-drop_last line in
      let longer : length (line ++ c ∷ []) ≡ length line + 1 = length-append line (c ∷ []) in
      elim (Bool-cases (c == 8)) [
        | inl erased ↦
            let index : edit_index c (length line) ≡ length (drop_last line) =
              rw erased (sym back) in
            let buffer : edit_buffer buf c (length line) m ≡ m = rw erased refl in
            rw
              (
                gets_loop_step (length (c ∷ cs)) buf c (length line) s _ m got ordinary,
                index,
                buffer,
                erased,
              )
              (Line-wider buf _ _ (typed (drop_last line) cs) s2 m _ (omega (arith, back)) (
                gets_loop-typed buf (drop_last line) cs _ s1 s2 m more plain end
                  (omega (arith, back)) (Holds-drop_last m buf line held)))
        | inr kept ↦
            let index : edit_index c (length line) ≡ length (line ++ c ∷ []) =
              rw kept (sym longer) in
            let buffer : edit_buffer buf c (length line) m ≡ update m (buf + length line) c =
              rw (kept, at) refl in
            rw
              (
                gets_loop_step (length (c ∷ cs)) buf c (length line) s _ m got ordinary,
                index,
                buffer,
                kept,
              )
              (Line-wider buf _ _ (typed (line ++ c ∷ []) cs) s2 m _ (omega (arith, longer)) (
                Line-after buf _ (buf + length line) c _ s2 m _ (omega arith)
                  (omega (arith, longer))
                  (gets_loop-typed buf (line ++ c ∷ []) cs _ s1 s2 (update m (buf + length line) c)
                    more plain end (omega (arith, longer))
                    (Holds-append m buf (buf + length line) c line refl held))))
      ]

gets_noecho-loop :
    {T : Type 0} (wait : ℕ) (hooks : TermHook T) (hook : T → ℕ × T) (fuel buf : ℕ) (s : Term T)
    (m : Memory)
    → hooks.getc ≡ some hook
    → gets_noecho wait (some hooks) fuel buf s m ≡ gets_loop wait (some hooks) fuel buf 0 s m
unfolding gets_noecho
gets_noecho-loop {T} wait hooks hook fuel buf s m able = at_hook hooks.getc able
  where
    at_hook :
        (o : Option (T → ℕ × T))
        → o ≡ some hook
        → elim o [ none ↦ some (s, m) | some f ↦ gets_loop wait (some hooks) fuel buf 0 s m ]
          ≡ gets_loop wait (some hooks) fuel buf 0 s m
    at_hook none e = cc
    at_hook (some f) e = refl

-- With an implementation that reads: if the terminal gives characters none of which ends the line, and
-- then a line feed, and the buffer does not wrap round, term_gets_noecho returns behind the line feed;
-- the buffer holds the line that was typed, in which each backspace takes back the last character if
-- there is one, and a NUL, and the memory is as before outside the buffer up to one byte for each
-- character and one more.
pub gets_noecho-typed :
    {T : Type 0} (wait : ℕ) (hooks : TermHook T) (hook : T → ℕ × T) (buf : ℕ) (cs : List ℕ)
    (s s1 s2 : Term T) (m : Memory)
    → hooks.getc ≡ some hook
    → Reads wait (some hooks) cs s s1
    → All (λ c. (c == 10) ≡ false) cs
    → getc_noecho wait (some hooks) s1 ≡ some (10, s2)
    → buf + length cs < 0x1_0000_0000
    → Line wait
        (some hooks)
        buf
        (buf + length cs)
        (typed [] cs)
        s2
        m
        (gets_noecho wait (some hooks) (suc (length cs)) buf s m)
unfolding Holds
gets_noecho-typed wait hooks hook buf cs s s1 s2 m able reads plain end room =
    let none_typed : buf + (0 + length cs) ≡ buf + length cs = omega arith in
    let line = Line wait (some hooks) buf in
    subst (λ r. line (buf + length cs) (typed [] cs) s2 m r)
      (sym (gets_noecho-loop wait hooks hook (suc (length cs)) buf s m able))
      (subst
        (λ top.
          line top (typed [] cs) s2 m (gets_loop wait (some hooks) (suc (length cs)) buf 0 s m))
        none_typed
        (gets_loop-typed wait (some hooks) buf [] cs s s1 s2 m reads plain end (omega arith) tt))
