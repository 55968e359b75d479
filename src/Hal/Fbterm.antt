-- ===== src/Hal/Fbterm.antt =====
-- hal/term_fbuf.c, the terminal on the frame buffer, with a frame buffer and a font in place: the
-- cursor counts characters. `hook` is the accelerated scrolling of a driver. The casts to `int` do not
-- change the differences that are tested, which are unsigned like the width of the font.
pub mod Grid
mod Tests
use sysx.Base.{
  ℕ, zero, suc, ◌/◌, ◌%◌, Bool, true, false, ◌&&◌, Option, none, some, List, [], ◌∷◌, ltb, leb,
  ◌==◌, ◌!=◌, if◌then◌else◌, add_size, sub_size, mul_size,
}
use sysx.Base.Memory.{Memory}
use sysx.Hal.Fbuf.{Fbuf}
use sysx.Hal.Fbuf.Screen.{Font, fill, scroll_up, putc_stub}

-- The variables of the file, with the frame buffer and the memory.
pub record Fbterm : Type 0 where
  pub fb : Fbuf
  pub memory : Memory
  pub x : ℕ
  pub y : ℕ
  pub fg : ℕ
  pub bg : ℕ

-- `fbterm_get_dimensions`
unfoldable pub get_dimensions : Option Fbuf → Option Font → ℕ × ℕ
get_dimensions (some fb) (some font) = (fb.width / font.width, fb.height / font.height)
get_dimensions _ _ = (0, 0)

module _ (font : Font) (hook : Option (ℕ → Memory → Memory)) where
  -- `fbuf_impl->width - fbterm_x * fbuf_font->width`, and the same of the height at line `y`.
  pub room : Fbterm → ℕ
  room s = sub_size s.fb.width (mul_size s.x font.width)

  pub room_below : Fbterm → ℕ → ℕ
  room_below s y = sub_size s.fb.height (mul_size y font.height)

  pub newline : Fbterm → Fbterm
  unfolding room_below
  newline s =
      let y = add_size s.y 1 in
      let (fb, m) = scroll_up hook s.fb font.height s.bg s.memory in
      if ltb (room_below s y) font.height
      then record s { fb = fb; memory = m; x = 0; y = sub_size y 1 }
      else record s { x = 0; y = y }

  -- A character at the cursor, which moves on.
  pub draw : ℕ → Fbterm → Fbterm
  draw c s = record s {
    memory =
        putc_stub s.fb (some font) (mul_size s.x font.width) (mul_size s.y font.height) c s.fg s.bg
          false s.memory;
    x = add_size s.x 1;
  }

  -- The last step of a tab and of a character: to the next line if there is no room.
  pub wrap : Fbterm → Fbterm
  unfolding newline room
  wrap s = if ltb (room s) font.width then newline s else s

  -- The loop of a tab; `none` means that the fuel ran out.
  pub tab_from : ℕ → Fbterm → Option Fbterm
  unfolding draw room
  tab_from zero s = none
  tab_from (suc fuel) s =
      let s' = draw 32 s in
      elim (leb font.width (room s') && s'.x % 4 != 0) [ true ↦ tab_from fuel s' | false ↦ some s' ]

  pub backspace : Fbterm → Fbterm
  backspace s =
      if s.x != 0
      then record s { x = sub_size s.x 1 }
      else if s.y != 0
      then record s { x = sub_size (s.fb.width / font.width) 1; y = sub_size s.y 1 }
      else s

  -- `fbterm_putc_stub`; a tab takes four rounds at most.
  pub fbterm_putc_stub : ℕ → Fbterm → Option Fbterm
  unfolding newline draw wrap tab_from backspace
  fbterm_putc_stub c s =
      if c == 8
      then some (backspace s)
      else if c == 13
      then some (record s { x = 0 })
      else if c == 10
      then some (newline s)
      else if c == 9
      then elim (tab_from 4 s) [ none ↦ none | some s' ↦ some (wrap s') ]
      else some (wrap (draw c s))

  -- `fbterm_puts` of the characters before the end of the string.
  unfoldable pub puts : List ℕ → Fbterm → Option Fbterm
  unfolding fbterm_putc_stub
  puts [] s = some s
  puts (c ∷ cs) s = elim (fbterm_putc_stub c s) [ none ↦ none | some s' ↦ puts cs s' ]

-- `fbterm_clear`
unfoldable pub clear : Fbterm → Fbterm
clear s = record s { memory = fill (some s.fb) s.bg s.memory; x = 0; y = 0 }

-- `fbterm_set_xy`
unfoldable pub set_xy : ℕ → ℕ → Fbterm → Fbterm
set_xy x y s = record s { x = x; y = y }
