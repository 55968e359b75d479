-- ===== src/Hal/Fbuf/Screen.antt =====
-- hal/fbuf.c: filling, scrolling, text, and the second buffer that is committed to the first. The
-- hooks of a driver and the drawing of a font are arguments; that interrupts are off while a buffer is
-- committed is left out, since the memory is that of one task here.
use sysx.Base.{
  ◌≡◌, arith, ℕ, zero, suc, ◌/◌, ◌%◌, Bool, true, false, ◌||◌, Option, none, some, List, [], ◌∷◌,
  ltb, leb, ◌==◌, ◌!=◌, if◌then◌else◌, add_size, sub_size, mul_size,
}
use sysx.Base.Memory.{Memory}
use sysx.Libc.String.{memmove, memset16, memset32}
use sysx.Hal.Fbuf.{Fbuf, process_color, putpixel_stub}

-- The `memset` per line, with `left` lines to go.
pub fill_lines : Fbuf → ℕ → ℕ → ℕ → ℕ → Memory → Memory
fill_lines fb bytes color zero p m = m
fill_lines fb bytes color (suc left) p m = fill_lines fb bytes color left (add_size p fb.pitch) (
    if bytes == 2
    then memset16 p (color % 0x1_0000) (fb.pitch / 2) m
    else if bytes == 4
    then memset32 p color (fb.pitch / 4) m
    else m)

pub fill_stub : Fbuf → ℕ → ℕ → ℕ → ℕ → Memory → Memory
unfolding fill_lines
fill_stub fb ptr y_start lines color m =
    let (c, bytes) = process_color fb.kind color in
    let p = add_size ptr (mul_size y_start fb.pitch) in
    if lines == 0
    then m
    else if bytes == 3
    then (let (c', bytes') = process_color fb.kind c in
        putpixel_stub fb ptr 0 y_start (mul_size fb.width lines) c' bytes' m)
    else if fb.pitch % bytes == 0
    then (if bytes == 2
        then memset16 p (c % 0x1_0000) (mul_size fb.pitch lines / 2) m
        else if bytes == 4
        then memset32 p c (mul_size fb.pitch lines / 4) m
        else m)
    else fill_lines fb bytes c lines p m

-- `fbuf_fill`
unfoldable pub fill : Option Fbuf → ℕ → Memory → Memory
unfolding fill_stub
fill none color m = m
fill (some fb) color m =
    let m' : Memory =
      if fb.backbuffer != 0 then fill_stub fb fb.backbuffer 0 fb.height color m else m in
    if fb.dbuf_direct_write || fb.backbuffer == 0
    then fill_stub fb fb.framebuffer 0 fb.height color m'
    else m'

pub scroll_up_stub : Fbuf → ℕ → ℕ → ℕ → ℕ → Memory → Memory
unfolding fill_stub
scroll_up_stub fb ptr_dst ptr_src lines color m =
    let rest = sub_size fb.height lines in
    fill_stub fb ptr_dst rest lines color
      (memmove ptr_dst (add_size ptr_src (mul_size lines fb.pitch)) (mul_size rest fb.pitch) m)

pub scroll_down_stub : Fbuf → ℕ → ℕ → ℕ → ℕ → Memory → Memory
unfolding fill_stub
scroll_down_stub fb ptr_dst ptr_src lines color m =
    let rest = sub_size fb.height lines in
    fill_stub fb ptr_dst 0 lines color
      (memmove (add_size ptr_dst (mul_size lines fb.pitch)) ptr_src (mul_size rest fb.pitch) m)

-- The part that `fbuf_scroll_up` and `fbuf_scroll_down` share, for their stub; the source of what is
-- moved is the second buffer also where there is none.
pub scroll_buffers :
    (Fbuf → ℕ → ℕ → ℕ → ℕ → Memory → Memory) → Fbuf → ℕ → ℕ → Memory → Fbuf × Memory
scroll_buffers stub fb lines color m =
    let m' : Memory =
      if fb.dbuf_direct_write || fb.backbuffer == 0
      then stub fb fb.framebuffer fb.backbuffer lines color m
      else m in
    if fb.backbuffer != 0
    then (record fb { flip_all = true }, stub fb fb.backbuffer fb.backbuffer lines color m')
    else (fb, m')

-- `fbuf_scroll_up` and `fbuf_scroll_down` with a frame buffer; `hook` is the accelerated function.
unfoldable pub scroll_up : Option (ℕ → Memory → Memory) → Fbuf → ℕ → ℕ → Memory → Fbuf × Memory
unfolding scroll_buffers scroll_up_stub fill_stub
scroll_up hook fb lines color m =
    let lines' = if ltb fb.height lines then fb.height else lines in
    let base = if fb.backbuffer != 0 then fb.backbuffer else fb.framebuffer in
    if lines == 0 then (fb, m) else elim hook [
      | some move ↦ (fb, fill_stub fb base (sub_size fb.height lines') lines' color (move lines' m))
      | none ↦ scroll_buffers scroll_up_stub fb lines' color m
    ]

unfoldable pub scroll_down : Option (ℕ → Memory → Memory) → Fbuf → ℕ → ℕ → Memory → Fbuf × Memory
unfolding scroll_buffers scroll_down_stub fill_stub
scroll_down hook fb lines color m =
    let lines' = if ltb fb.height lines then fb.height else lines in
    let base = if fb.backbuffer != 0 then fb.backbuffer else fb.framebuffer in
    if lines == 0 then (fb, m) else elim hook [
      | some move ↦ (fb, fill_stub fb base 0 lines' color (move lines' m))
      | none ↦ scroll_buffers scroll_down_stub fb lines' color m
    ]

-- Scrolling keeps the size of the screen.
pub scroll_up-size :
    (hook : Option (ℕ → Memory → Memory)) (fb : Fbuf) (lines color : ℕ) (m : Memory)
    → ((scroll_up hook fb lines color m).0.width ≡ fb.width)
      × ((scroll_up hook fb lines color m).0.height ≡ fb.height)
unfolding scroll_up scroll_buffers
scroll_up-size none fb lines color m = ground arith
scroll_up-size (some move) fb lines color m = ground arith

-- `fbuf_font_t`: its size, and how it draws a character at a place in two colours, the second of
-- which may be transparent.
pub record Font : Type 0 where
  pub width : ℕ
  pub height : ℕ
  pub draw : ℕ → ℕ → ℕ → ℕ → ℕ → Bool → Memory → Memory

-- The loop of `fbuf_puts_stub` over the characters before the end of the string.
pub puts_from : Fbuf → Font → ℕ → ℕ → List ℕ → ℕ → ℕ → Bool → Memory → Memory
puts_from fb font x y [] fg bg transparent m = m
puts_from fb font x y (c ∷ s) fg bg transparent m =
    let m' = font.draw x y c fg bg transparent m in
    elim (leb fb.width (add_size x font.width)) [
      | false ↦ puts_from fb font (add_size x font.width) y s fg bg transparent m'
      | true ↦ elim (leb fb.height (add_size y font.height)) [
        | true ↦ m'
        | false ↦ puts_from fb font 0 (add_size y font.height) s fg bg transparent m'
      ]
    ]

-- `fbuf_putc_stub` and `fbuf_puts_stub`
unfoldable pub putc_stub : Fbuf → Option Font → ℕ → ℕ → ℕ → ℕ → ℕ → Bool → Memory → Memory
putc_stub fb none x y c fg bg transparent m = m
putc_stub fb (some font) x y c fg bg transparent m =
    if leb fb.width x || leb fb.height y then m else font.draw x y c fg bg transparent m

unfoldable pub puts_stub : Fbuf → Option Font → ℕ → ℕ → List ℕ → ℕ → ℕ → Bool → Memory → Memory
unfolding puts_from
puts_stub fb none x y s fg bg transparent m = m
puts_stub fb (some font) x y s fg bg transparent m =
    if leb fb.width x || leb fb.height y then m else puts_from fb font x y s fg bg transparent m
