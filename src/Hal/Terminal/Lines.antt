-- ===== src/Hal/Terminal/Lines.antt =====
-- `term_gets_noecho` and `term_gets`: a line is read into a buffer, where a backspace takes back the
-- last character.
pub mod Typed
use sysx.Base.{
  ℕ, zero, suc, ◌+◌, ◌-◌, ◌<◌, ◌≤◌, ◌≡◌, ◌≢◌, refl, ◌∙◌, Bool, true, false, Option, none, some,
  List, [], ◌∷◌, ◌++◌, length, ◌==◌, ◌!=◌, if◌then◌else◌, add_size, arith,
}
use sysx.Base.Memory.{Memory, update}
use sysx.Hal.Terminal.{TermHook, Term, getc_noecho, putc, puts}

-- The index into the buffer, and the buffer, after a character that does not end the line.
abbrev pub edit_index : ℕ → ℕ → ℕ
edit_index c i = if c == 8 then i - 1 else i + 1

abbrev pub edit_buffer : ℕ → ℕ → ℕ → Memory → Memory
edit_buffer buf c i m = if c == 8 then m else update m (add_size buf i) c

module _ {T : Type 0} (wait : ℕ) (h : Option (TermHook T)) where
  -- The loop of `term_gets_noecho`, with a round for each character; `none` is a line that does not
  -- end, or a wait.
  pub gets_loop : ℕ → ℕ → ℕ → Term T → Memory → Option (Term T × Memory)
  gets_loop zero buf i s m = none
  gets_loop (suc fuel) buf i s m = elim (getc_noecho wait h s) [
    | none ↦ none
    | some (c, s') ↦ elim (c == 10) [
      | true ↦ some (s', update m (add_size buf i) 0)
      | false ↦ gets_loop fuel buf (edit_index c i) s' (edit_buffer buf c i m)
    ]
  ]

  pub gets_noecho : ℕ → ℕ → Term T → Memory → Option (Term T × Memory)
  unfolding gets_loop
  gets_noecho fuel buf s m = elim h [
    | none ↦ some (s, m)
    | some hooks ↦ elim hooks.getc [ none ↦ some (s, m) | some hook ↦ gets_loop fuel buf 0 s m ]
  ]

  -- What is put out for a character: a backspace wipes the character on the screen, also where the
  -- line has none.
  pub echo : ℕ → Term T → Option (Unit {0} × Term T)
  echo c s = if c == 8 then puts h (8 ∷ 32 ∷ 8 ∷ []) s else putc h c s

  pub echo_loop : ℕ → ℕ → ℕ → Term T → Memory → Option (Term T × Memory)
  unfolding echo
  echo_loop zero buf i s m = none
  echo_loop (suc fuel) buf i s m = elim (getc_noecho wait h s) [
    | none ↦ none
    | some (c, s') ↦ elim (c == 10) [
      | true ↦ elim (puts h (13 ∷ 10 ∷ []) s') [
        | none ↦ none
        | some (u, s'') ↦ some (s'', update m (add_size buf i) 0)
      ]
      | false ↦ elim (echo c s') [
        | none ↦ none
        | some (u, s'') ↦ echo_loop fuel buf (edit_index c i) s'' (edit_buffer buf c i m)
      ]
    ]
  ]

  unfoldable pub gets : ℕ → ℕ → Term T → Memory → Option (Term T × Memory)
  unfolding echo_loop
  gets fuel buf s m = elim h [
    | none ↦ some (s, m)
    | some hooks ↦ elim hooks.getc [ none ↦ some (s, m) | some hook ↦ echo_loop fuel buf 0 s m ]
  ]
