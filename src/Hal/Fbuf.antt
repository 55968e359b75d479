-- ===== src/Hal/Fbuf.antt =====
-- hal/fbuf.c, the frame buffer: formats of pixels, and the pixels that are written and read. Fields of
-- a colour do not overlap, so that `|` of them is their sum, and shifts and masks are quotients and
-- remainders. The memory holds the buffers.
pub mod Screen
pub mod Commit
pub mod Pixel
mod Tests
use sysx.Base.{
  ℕ, zero, suc, ◌+◌, ◌*◌, ◌/◌, ◌%◌, Bool, true, false, ◌&&◌, ◌||◌, Option, none, some, List, [],
  ◌∷◌, leb, ◌==◌, ◌!=◌, if◌then◌else◌, add_size, sub_size, mul_size,
}
use sysx.Base.Memory.{Memory, update}
use sysx.Libc.String.{store16, store32, memset16, memset32}

-- `enum fbuf_pixel_type`
pub data PixelType : Type 0 where
  fbuf_15bpp_rgb555 : PixelType
  fbuf_15bpp_rgb555_re : PixelType
  fbuf_15bpp_bgr555 : PixelType
  fbuf_15bpp_bgr555_re : PixelType
  fbuf_16bpp_rgb565 : PixelType
  fbuf_16bpp_rgb565_re : PixelType
  fbuf_16bpp_bgr565 : PixelType
  fbuf_16bpp_bgr565_re : PixelType
  fbuf_24bpp_rgb888 : PixelType
  fbuf_24bpp_bgr888 : PixelType
  fbuf_32bpp_rgb888 : PixelType
  fbuf_32bpp_rgb888_re : PixelType
  fbuf_32bpp_bgr888 : PixelType
  fbuf_32bpp_bgr888_re : PixelType

-- `fbuf_t`, without its hooks; a null buffer is 0.
pub record Fbuf : Type 0 where
  pub width : ℕ
  pub height : ℕ
  pub kind : PixelType
  pub pitch : ℕ
  pub framebuffer : ℕ
  pub backbuffer : ℕ
  pub tick_flip : ℕ
  pub flip_all : Bool
  pub dbuf_direct_write : Bool

pub bytes_per_pixel : PixelType → ℕ
bytes_per_pixel kind = elim kind [
  | fbuf_24bpp_bgr888 ↦ 3
  | fbuf_24bpp_rgb888 ↦ 3
  | fbuf_32bpp_bgr888 ↦ 4
  | fbuf_32bpp_bgr888_re ↦ 4
  | fbuf_32bpp_rgb888 ↦ 4
  | fbuf_32bpp_rgb888_re ↦ 4
  | _ ↦ 2
]

-- `FBUF_R`, `FBUF_G` and `FBUF_B`
abbrev pub red : ℕ → ℕ
red c = c / 0x1_0000 % 256

abbrev pub green : ℕ → ℕ
green c = c / 256 % 256

abbrev pub blue : ℕ → ℕ
blue c = c % 256

-- `((c & 0x00FF) << 8) | ((c & 0xFF00) >> 8)`
abbrev pub swap_bytes : ℕ → ℕ
swap_bytes c = c % 256 * 256 + c / 256 % 256

-- The fields of five, five or six, and five bits.
abbrev pub pack555 : ℕ → ℕ → ℕ → ℕ
pack555 a b c = a / 8 * 1024 + b / 8 * 32 + c / 8

abbrev pub pack565 : ℕ → ℕ → ℕ → ℕ
pack565 a b c = a / 8 * 2048 + b / 4 * 32 + c / 8

-- The switch of `fbuf_process_color`: the colour as the format has it, and its bytes.
pub shuffle : PixelType → ℕ → ℕ × ℕ
shuffle kind c = elim kind [
  | fbuf_15bpp_bgr555 ↦ (pack555 (blue c) (green c) (red c), 2)
  | fbuf_15bpp_bgr555_re ↦ (swap_bytes (pack555 (blue c) (green c) (red c)), 2)
  | fbuf_15bpp_rgb555 ↦ (pack555 (red c) (green c) (blue c), 2)
  | fbuf_15bpp_rgb555_re ↦ (swap_bytes (pack555 (red c) (green c) (blue c)), 2)
  | fbuf_16bpp_bgr565 ↦ (pack565 (blue c) (green c) (red c), 2)
  | fbuf_16bpp_bgr565_re ↦ (swap_bytes (pack565 (blue c) (green c) (red c)), 2)
  | fbuf_16bpp_rgb565 ↦ (pack565 (red c) (green c) (blue c), 2)
  | fbuf_16bpp_rgb565_re ↦ (swap_bytes (pack565 (red c) (green c) (blue c)), 2)
  | fbuf_24bpp_bgr888 ↦ (c, 3)
  | fbuf_24bpp_rgb888 ↦ (c, 3)
  | fbuf_32bpp_bgr888 ↦ (red c + green c * 256 + blue c * 0x1_0000, 4)
  | fbuf_32bpp_bgr888_re ↦ (red c * 0x100_0000 + green c * 0x1_0000 + blue c * 256, 4)
  | fbuf_32bpp_rgb888 ↦ (c, 4)
  | fbuf_32bpp_rgb888_re ↦ (
    -- The last mask is written 0x00FF00000 there, four bits further up than the red byte.
    c % 256 * 0x100_0000 + c / 256 % 256 * 0x1_0000 + c / 0x10_0000 % 256 * 0x1000,
    4,
  )
]

pub process_color : PixelType → ℕ → ℕ × ℕ
process_color kind color = shuffle kind (color % 0x100_0000)

-- The three bytes of a pixel.
abbrev pub store24 : ℕ → ℕ → ℕ → ℕ → Memory → Memory
store24 p a b c m = update (update (update m p a) (add_size p 1) b) (add_size p 2) c

-- One round of the slower loop of `fbuf_putpixel_stub`.
pub store_pixel : PixelType → ℕ → ℕ → ℕ → Memory → Memory
store_pixel kind bytes color p m =
    if bytes == 2
    then store16 p (color % 0x1_0000) m
    else if bytes == 3
    then elim kind [
      | fbuf_24bpp_bgr888 ↦ store24 p (red color) (green color) (blue color) m
      | _ ↦ store24 p (blue color) (green color) (red color) m
    ]
    else if bytes == 4
    then store32 p color m
    else m

pub line_offset : Fbuf → ℕ → ℕ
line_offset fb bytes = sub_size fb.pitch (mul_size fb.width bytes)

pub pixel_address : Fbuf → ℕ → ℕ → ℕ → ℕ → ℕ
pixel_address fb ptr x y bytes = add_size (add_size ptr (mul_size y fb.pitch)) (mul_size x bytes)

-- The slower loop, with `left` pixels to go.
pub draw_from : Fbuf → ℕ → ℕ → ℕ → ℕ → ℕ → ℕ → Memory → Memory
unfolding store_pixel line_offset
draw_from fb bytes color zero p x y m = m
draw_from fb bytes color (suc left) p x y m =
    let m' = store_pixel fb.kind bytes color p m in
    elim (add_size x 1 == fb.width) [
      | false ↦ draw_from fb bytes color left (add_size p bytes) (add_size x 1) y m'
      | true ↦ elim (add_size y 1 == fb.height) [
        | true ↦ m'
        | false ↦
            draw_from fb bytes color left (add_size (add_size p bytes) (line_offset fb bytes)) 0
              (add_size y 1) m'
      ]
    ]

pub putpixel_stub : Fbuf → ℕ → ℕ → ℕ → ℕ → ℕ → ℕ → Memory → Memory
unfolding draw_from line_offset pixel_address
putpixel_stub fb ptr x y n color bytes m =
    let p = pixel_address fb ptr x y bytes in
    if line_offset fb bytes == 0 && bytes != 3
    then (if bytes == 2
        then memset16 p (color % 0x1_0000) n m
        else if bytes == 4
        then memset32 p color n m
        else m)
    else draw_from fb bytes color n p x y m

pub putpixel : Option Fbuf → ℕ → ℕ → ℕ → ℕ → Memory → Memory
unfolding putpixel_stub process_color
putpixel none x y n color m = m
putpixel (some fb) x y n color m =
    if n == 0 || leb fb.width x || leb fb.height y
    then m
    else (let (c, bytes) = process_color fb.kind color in
        let m' : Memory =
          if fb.backbuffer != 0 then putpixel_stub fb fb.backbuffer x y n c bytes m else m in
        if fb.dbuf_direct_write || fb.backbuffer == 0
        then putpixel_stub fb fb.framebuffer x y n c bytes m'
        else m')

-- `*((uint16_t*) p)` and `*((uint32_t*) p)`
abbrev pub load16 : Memory → ℕ → ℕ
load16 m p = m p + 256 * m (add_size p 1)

abbrev pub load32 : Memory → ℕ → ℕ
load32 m p = load16 m p + 0x1_0000 * load16 m (add_size p 2)

-- The fields of a pixel, from the lowest, as bytes from the lowest: five, five or six, and five bits.
abbrev pub low_first555 : ℕ → ℕ
low_first555 t = t % 32 * 8 + t / 32 % 32 * 0x800 + t / 1024 % 32 * 0x8_0000

abbrev pub high_first555 : ℕ → ℕ
high_first555 t = t / 1024 % 32 * 8 + t / 32 % 32 * 0x800 + t % 32 * 0x8_0000

abbrev pub low_first565 : ℕ → ℕ
low_first565 t = t % 32 * 8 + t / 32 % 64 * 0x400 + t / 2048 % 32 * 0x8_0000

abbrev pub high_first565 : ℕ → ℕ
high_first565 t = t / 2048 % 32 * 8 + t / 32 % 64 * 0x400 + t % 32 * 0x8_0000

-- The switch of `fbuf_getpixel_stub`.
pub load_pixel : PixelType → Memory → ℕ → ℕ
load_pixel kind m p =
    let t = load16 m p in
    let w = load32 m p in
    elim kind [
      | fbuf_15bpp_rgb555 ↦ low_first555 t
      | fbuf_15bpp_rgb555_re ↦ low_first555 (swap_bytes t)
      | fbuf_15bpp_bgr555 ↦ high_first555 t
      | fbuf_15bpp_bgr555_re ↦ high_first555 (swap_bytes t)
      | fbuf_16bpp_bgr565 ↦ high_first565 t
      | fbuf_16bpp_bgr565_re ↦ high_first565 (swap_bytes t)
      | fbuf_16bpp_rgb565 ↦ low_first565 t
      | fbuf_16bpp_rgb565_re ↦ low_first565 (swap_bytes t)
      | fbuf_24bpp_rgb888 ↦ m p * 0x1_0000 + m (add_size p 1) * 256 + m (add_size p 2)
      | fbuf_24bpp_bgr888 ↦ m (add_size p 2) * 0x1_0000 + m (add_size p 1) * 256 + m p
      | fbuf_32bpp_bgr888 ↦ w % 256 * 0x1_0000 + w / 256 % 256 * 256 + w / 0x1_0000 % 256
      | fbuf_32bpp_bgr888_re ↦ w / 256
      | fbuf_32bpp_rgb888 ↦ w % 0x100_0000
      | fbuf_32bpp_rgb888_re ↦ w / 0x100_0000 + w / 0x1_0000 % 256 * 256 + w / 256 % 256 * 0x1_0000
    ]

-- What the loop of `fbuf_getpixel_stub` stores at `color`, which lies outside the buffers.
pub read_from : Fbuf → ℕ → ℕ → ℕ → ℕ → ℕ → Memory → List ℕ
unfolding load_pixel line_offset
read_from fb bytes zero p x y m = []
read_from fb bytes (suc left) p x y m =
    let c = load_pixel fb.kind m p in
    elim (add_size x 1 == fb.width) [
      | false ↦ c ∷ read_from fb bytes left (add_size p bytes) (add_size x 1) y m
      | true ↦ elim (add_size y 1 == fb.height) [
        | true ↦ c ∷ []
        | false ↦
            c
            ∷ read_from fb bytes left (add_size (add_size p bytes) (line_offset fb bytes)) 0
                (add_size y 1) m
      ]
    ]

-- `fbuf_getpixel`, and `fbuf_getpixel_stub` for a given frame buffer.
pub getpixel : Option Fbuf → ℕ → ℕ → ℕ → Memory → List ℕ
unfolding read_from bytes_per_pixel pixel_address
getpixel none x y n m = []
getpixel (some fb) x y n m =
    if n == 0 || leb fb.width x || leb fb.height y
    then []
    else (let bytes = bytes_per_pixel fb.kind in
        let base = if fb.backbuffer != 0 then fb.backbuffer else fb.framebuffer in
        read_from fb bytes n (pixel_address fb base x y bytes) x y m)
