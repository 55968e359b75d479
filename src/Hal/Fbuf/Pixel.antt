-- ===== src/Hal/Fbuf/Pixel.antt =====
-- A pixel that is written and read back.
use sysx.Base.{
  ℕ, zero, suc, ◌+◌, ◌*◌, ◌/◌, ◌%◌, ◌<◌, ◌≡◌, refl, ap, ◌∙◌, ◌⊎◌, Bool, true, false, ◌||◌, some, [],
  ◌∷◌, leb, ◌==◌, ◌!=◌, if◌then◌else◌, add_size, arith,
}
use sysx.Base.Memory.{Memory}
use sysx.Libc.String.{store16, store32, fill16, fill32, memset16, memset32}
use sysx.Hal.Fbuf.{
  PixelType, fbuf_15bpp_rgb555, fbuf_15bpp_rgb555_re, fbuf_15bpp_bgr555, fbuf_15bpp_bgr555_re,
  fbuf_16bpp_rgb565, fbuf_16bpp_rgb565_re, fbuf_16bpp_bgr565, fbuf_16bpp_bgr565_re,
  fbuf_24bpp_rgb888, fbuf_24bpp_bgr888, fbuf_32bpp_rgb888, fbuf_32bpp_rgb888_re, fbuf_32bpp_bgr888,
  fbuf_32bpp_bgr888_re, Fbuf, bytes_per_pixel, red, green, blue, shuffle, process_color, store24,
  store_pixel, pixel_address, draw_from, putpixel_stub, putpixel, load16, load32, load_pixel,
  read_from, getpixel,
}

-- The channels of a colour with the bits that a format leaves of them.
abbrev pub shown555 : ℕ → ℕ
shown555 c = red c / 8 * 8 * 0x1_0000 + green c / 8 * 8 * 256 + blue c / 8 * 8

abbrev pub shown565 : ℕ → ℕ
shown565 c = red c / 8 * 8 * 0x1_0000 + green c / 4 * 4 * 256 + blue c / 8 * 8

-- The colour that is read back: formats of two bytes keep the upper bits of each channel, those of
-- three bytes swap red and blue, one of four bytes loses the lower four bits of red, and the others
-- keep the colour.
pub read_back : PixelType → ℕ → ℕ
read_back kind c = elim kind [
  | fbuf_15bpp_bgr555 ↦ shown555 c
  | fbuf_15bpp_bgr555_re ↦ shown555 c
  | fbuf_15bpp_rgb555 ↦ shown555 c
  | fbuf_15bpp_rgb555_re ↦ shown555 c
  | fbuf_16bpp_bgr565 ↦ shown565 c
  | fbuf_16bpp_bgr565_re ↦ shown565 c
  | fbuf_16bpp_rgb565 ↦ shown565 c
  | fbuf_16bpp_rgb565_re ↦ shown565 c
  | fbuf_24bpp_bgr888 ↦ blue c * 0x1_0000 + green c * 256 + red c
  | fbuf_24bpp_rgb888 ↦ blue c * 0x1_0000 + green c * 256 + red c
  | fbuf_32bpp_rgb888_re ↦ red c / 16 * 16 * 0x1_0000 + green c * 256 + blue c
  | _ ↦ c % 0x100_0000
]

-- What `store16`, `store24` and `store32` leave is what `load16` and `load32` find.
load16-store16 :
    (m : Memory) (p w : ℕ) → p < 0x1_0000_0000 → load16 (store16 p w m) p ≡ w % 0x1_0000
load16-store16 m p w small = ground arith

load32-store32 :
    (m : Memory) (p w : ℕ) → p < 0x1_0000_0000 → load32 (store32 p w m) p ≡ w % 0x1_0000_0000
load32-store32 m p w small = ground arith

fill16-one : (p c : ℕ) (m : Memory) → p < 0x1_0000_0000 → memset16 p c 1 m ≡ store16 p c m
unfolding memset16 fill16
fill16-one p c m small = let start : add_size p 0 ≡ p = omega arith in rw start refl

-- The colour in the format of two bytes, and as it is kept.
abbrev pub packed : PixelType → ℕ → ℕ
packed kind c = (process_color kind c).0

-- Three bytes that are stored are there.
load-store24 :
    (m : Memory) (p a b c : ℕ)
    → p < 0x1_0000_0000
    → (store24 p a b c m p ≡ a)
      × (store24 p a b c m (add_size p 1) ≡ b)
      × (store24 p a b c m (add_size p 2) ≡ c)
load-store24 m p a b c small = ground arith

load_pixel-store_pixel :
    (kind : PixelType) (p c : ℕ) (m : Memory)
    → p < 0x1_0000_0000
    → load_pixel kind (store_pixel kind (bytes_per_pixel kind) (packed kind c) p m) p
      ≡ read_back kind c
unfolding load_pixel store_pixel bytes_per_pixel process_color shuffle read_back
load_pixel-store_pixel fbuf_15bpp_rgb555 p c m small =
    rw (load16-store16 m p (packed fbuf_15bpp_rgb555 c % 0x1_0000) small) (omega arith)
load_pixel-store_pixel fbuf_15bpp_rgb555_re p c m small =
    rw (load16-store16 m p (packed fbuf_15bpp_rgb555_re c % 0x1_0000) small) (omega arith)
load_pixel-store_pixel fbuf_15bpp_bgr555 p c m small =
    rw (load16-store16 m p (packed fbuf_15bpp_bgr555 c % 0x1_0000) small) (omega arith)
load_pixel-store_pixel fbuf_15bpp_bgr555_re p c m small =
    rw (load16-store16 m p (packed fbuf_15bpp_bgr555_re c % 0x1_0000) small) (omega arith)
load_pixel-store_pixel fbuf_16bpp_rgb565 p c m small =
    rw (load16-store16 m p (packed fbuf_16bpp_rgb565 c % 0x1_0000) small) (omega arith)
load_pixel-store_pixel fbuf_16bpp_rgb565_re p c m small =
    rw (load16-store16 m p (packed fbuf_16bpp_rgb565_re c % 0x1_0000) small) (omega arith)
load_pixel-store_pixel fbuf_16bpp_bgr565 p c m small =
    rw (load16-store16 m p (packed fbuf_16bpp_bgr565 c % 0x1_0000) small) (omega arith)
load_pixel-store_pixel fbuf_16bpp_bgr565_re p c m small =
    rw (load16-store16 m p (packed fbuf_16bpp_bgr565_re c % 0x1_0000) small) (omega arith)
load_pixel-store_pixel fbuf_24bpp_rgb888 p c m small = ground arith
load_pixel-store_pixel fbuf_24bpp_bgr888 p c m small = ground arith
load_pixel-store_pixel fbuf_32bpp_rgb888 p c m small =
    rw (load32-store32 m p (packed fbuf_32bpp_rgb888 c) small) (omega arith)
load_pixel-store_pixel fbuf_32bpp_rgb888_re p c m small =
    rw (load32-store32 m p (packed fbuf_32bpp_rgb888_re c) small) (omega arith)
load_pixel-store_pixel fbuf_32bpp_bgr888 p c m small =
    rw (load32-store32 m p (packed fbuf_32bpp_bgr888 c) small) (omega arith)
load_pixel-store_pixel fbuf_32bpp_bgr888_re p c m small =
    rw (load32-store32 m p (packed fbuf_32bpp_bgr888_re c) small) (omega arith)

fill32-one : (p c : ℕ) (m : Memory) → p < 0x1_0000_0000 → memset32 p c 1 m ≡ store32 p c m
unfolding memset32 fill32
fill32-one p c m small = let start : add_size p 0 ≡ p = omega arith in rw start refl

draw_from-one :
    (fb : Fbuf) (bytes c p x y : ℕ) (m : Memory)
    → draw_from fb bytes c 1 p x y m ≡ store_pixel fb.kind bytes c p m
unfolding draw_from
draw_from-one fb bytes c p x y m = ground arith

read_from-one :
    (fb : Fbuf) (bytes p x y : ℕ) (m : Memory)
    → read_from fb bytes 1 p x y m ≡ load_pixel fb.kind m p ∷ []
unfolding read_from
read_from-one fb bytes p x y m = ground arith

address-small : (fb : Fbuf) (ptr x y bytes : ℕ) → pixel_address fb ptr x y bytes < 0x1_0000_0000
unfolding pixel_address
address-small fb ptr x y bytes = omega arith

-- One pixel is drawn in the same way by both loops.
putpixel_stub-one :
    (fb : Fbuf) (ptr x y c bytes : ℕ) (m : Memory)
    → putpixel_stub fb ptr x y 1 c bytes m
      ≡ store_pixel fb.kind bytes c (pixel_address fb ptr x y bytes) m
unfolding putpixel_stub draw_from store_pixel
putpixel_stub-one fb ptr x y c bytes m =
    let p = pixel_address fb ptr x y bytes in
    let small : p < 0x1_0000_0000 = address-small fb ptr x y bytes in
    rw
      (
        fill16-one p (c % 0x1_0000) m small,
        fill32-one p c m small,
        draw_from-one fb bytes c p x y m,
      )
      (ground arith)

-- The buffer that is read.
abbrev pub read_buffer : Fbuf → ℕ
read_buffer fb = if fb.backbuffer != 0 then fb.backbuffer else fb.framebuffer

process_color-bytes : (kind : PixelType) (c : ℕ) → (process_color kind c).1 ≡ bytes_per_pixel kind
unfolding process_color shuffle bytes_per_pixel
process_color-bytes kind c = ground arith

getpixel-one :
    (fb : Fbuf) (x y : ℕ) (m : Memory)
    → x < fb.width
    → y < fb.height
    → getpixel (some fb) x y 1 m
      ≡ load_pixel fb.kind m (pixel_address fb (read_buffer fb) x y (bytes_per_pixel fb.kind)) ∷ []
unfolding getpixel
getpixel-one fb x y m in_x in_y =
    let left : leb fb.width x ≡ false = ground arith in
    let above : leb fb.height y ≡ false = ground arith in
    let bytes = bytes_per_pixel fb.kind in
    rw (getpixel, left, above)
      (read_from-one fb bytes (pixel_address fb (read_buffer fb) x y bytes) x y m)

-- A drawing that goes to the second buffer, if there is one, and to the first if there is none.
draw-once :
    (direct : Bool) (back front : ℕ) (draw : ℕ → Memory → Memory) (m : Memory)
    → (back ≡ 0) ⊎ (direct ≡ false)
    → (let m' : Memory = if back != 0 then draw back m else m in
        if direct || back == 0 then draw front m' else m')
      ≡ draw (if back != 0 then back else front) m
draw-once false zero front draw m single = refl
draw-once true zero front draw m single = refl
draw-once false (suc back) front draw m single = ground arith
draw-once true (suc back) front draw m single = ground arith

putpixel-one :
    (fb : Fbuf) (x y color : ℕ) (m : Memory)
    → x < fb.width
    → y < fb.height
    → (fb.backbuffer ≡ 0) ⊎ (fb.dbuf_direct_write ≡ false)
    → putpixel (some fb) x y 1 color m
      ≡ store_pixel fb.kind
          (bytes_per_pixel fb.kind)
          (packed fb.kind color)
          (pixel_address fb (read_buffer fb) x y (bytes_per_pixel fb.kind))
          m
unfolding putpixel
putpixel-one fb x y color m in_x in_y single =
    let left : leb fb.width x ≡ false = ground arith in
    let above : leb fb.height y ≡ false = ground arith in
    let bytes = bytes_per_pixel fb.kind in
    let c = packed fb.kind color in
    rw (putpixel, left, above, process_color-bytes fb.kind color)
      (draw-once fb.dbuf_direct_write fb.backbuffer fb.framebuffer
          (λ ptr. putpixel_stub fb ptr x y 1 c bytes) m single
        ∙ putpixel_stub-one fb (read_buffer fb) x y c bytes m)

-- After fbuf_putpixel has drawn one pixel of the screen, with no second buffer or with one that is
-- not bypassed, fbuf_getpixel gives at the same place one colour, which the format decides: formats of
-- two bytes keep the upper bits of each channel, those of three bytes swap red and blue, one of four
-- bytes loses the lower four bits of red, and the others keep the colour.
pub getpixel-putpixel :
    (fb : Fbuf) (x y color : ℕ) (m : Memory)
    → x < fb.width
    → y < fb.height
    → (fb.backbuffer ≡ 0) ⊎ (fb.dbuf_direct_write ≡ false)
    → getpixel (some fb) x y 1 (putpixel (some fb) x y 1 color m) ≡ read_back fb.kind color ∷ []
unfolding getpixel putpixel
getpixel-putpixel fb x y color m in_x in_y single =
    let p = pixel_address fb (read_buffer fb) x y (bytes_per_pixel fb.kind) in
    rw (putpixel-one fb x y color m in_x in_y single, getpixel-one fb x y _ in_x in_y)
      (ap (λ c. c ∷ []) (load_pixel-store_pixel fb.kind p color m (address-small fb _ x y _)))
