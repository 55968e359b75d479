-- ===== src/Hal/Fbterm/Tests.antt =====
-- The terminal on a screen of three characters in two lines.
use sysx.Base.{ℕ, ◌+◌, ◌*◌, ◌≡◌, refl, false, Option, none, some, [], ◌∷◌, arith}
use sysx.Base.Memory.{update}
use sysx.Hal.Fbuf.{Fbuf, fbuf_32bpp_rgb888}
use sysx.Hal.Fbuf.Screen.{Font}
use sysx.Hal.Fbterm.{Fbterm, get_dimensions, puts, clear, set_xy}
use sysx.Hal.Fbterm.Grid.{Fits, IsOnGrid, Gives, puts-IsOnGrid}

abbrev screen : Fbuf
screen = record {
  width = 25;
  height = 33;
  kind = fbuf_32bpp_rgb888;
  pitch = 100;
  framebuffer = 0x1000;
  backbuffer = 0;
  tick_flip = 0;
  flip_all = false;
  dbuf_direct_write = false;
}

abbrev font : Font
font = record {
  width = 8;
  height = 16;
  draw = λ x y c fg bg transparent m. update m (100 * y + x) c;
}

abbrev terminal : Fbterm
terminal = record { fb = screen; memory = λ a. 0; x = 0; y = 0; fg = 0xc0c0c0; bg = 0 }

dimensions : get_dimensions (some screen) (some font) ≡ (3, 2)
unfolding get_dimensions
dimensions = refl

cleared : (clear (set_xy 2 1 terminal)).x ≡ 0
unfolding clear set_xy
cleared = refl

moved : (set_xy 2 1 terminal).y ≡ 1
unfolding set_xy
moved = refl

abbrev cursor : Option Fbterm → ℕ × ℕ
cursor none = (9, 9)
cursor (some s) = (s.x, s.y)

-- The last character of a line takes the cursor to the next one.
broken : cursor (puts font none (65 ∷ 66 ∷ 67 ∷ []) terminal) ≡ (0, 1)
unfolding puts
broken = refl

puts-IsOnGrid_example : Gives font none (puts font none (65 ∷ 9 ∷ 10 ∷ 8 ∷ []) terminal)
unfolding IsOnGrid Fits
puts-IsOnGrid_example =
    puts-IsOnGrid font none (65 ∷ 9 ∷ 10 ∷ 8 ∷ []) terminal
      ((omega arith, omega arith, omega arith), (omega arith, omega arith, omega arith))
