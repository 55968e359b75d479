-- ===== src/Hal/Fbuf/Tests.antt =====
-- The theorems about the frame buffer on small screens.
use sysx.Base.{ℕ, ◌≡◌, refl, Bool, false, none, some, [], ◌∷◌, inr, arith, ◌+◌, ◌*◌}
use sysx.Base.Memory.{Memory, update}
use sysx.Hal.Fbuf.{
  Fbuf, PixelType, fbuf_24bpp_bgr888, fbuf_16bpp_rgb565, fbuf_32bpp_rgb888_re, putpixel, getpixel,
  shuffle, process_color, putpixel_stub,
}
use sysx.Libc.String.{memmove, copy_up, copy_down, memset32, fill32}
use sysx.Hal.Fbuf.Pixel.{getpixel-putpixel, read_back}
use sysx.Hal.Fbuf.Screen.{Font, fill, scroll_up, scroll_down, putc_stub, puts_stub}
use sysx.Hal.Fbuf.Commit.{Pages, commit, putc, puts, commit-endless}

abbrev screen : PixelType → ℕ → Fbuf
screen kind backbuffer = record {
  width = 4;
  height = 2;
  kind = kind;
  pitch = 16;
  framebuffer = 0x1000;
  backbuffer = backbuffer;
  tick_flip = 0;
  flip_all = false;
  dbuf_direct_write = false;
}

abbrev empty : Memory
empty a = 0

-- Red comes back as blue.
swapped :
    getpixel
      (some (screen fbuf_24bpp_bgr888 0))
      2
      1
      1
      (putpixel (some (screen fbuf_24bpp_bgr888 0)) 2 1 1 0xff_0000 empty)
    ≡ 0xff ∷ []
unfolding getpixel putpixel shuffle
swapped = refl

kept :
    getpixel
      (some (screen fbuf_16bpp_rgb565 0x2000))
      3
      1
      1
      (putpixel (some (screen fbuf_16bpp_rgb565 0x2000)) 3 1 1 0xff8040 empty)
    ≡ 0xf88040 ∷ []
unfolding getpixel putpixel shuffle
kept = refl

getpixel-putpixel_example :
    getpixel
      (some (screen fbuf_32bpp_rgb888_re 0x2000))
      3
      1
      1
      (putpixel (some (screen fbuf_32bpp_rgb888_re 0x2000)) 3 1 1 0xff8040 empty)
    ≡ read_back fbuf_32bpp_rgb888_re 0xff8040 ∷ []
getpixel-putpixel_example =
    getpixel-putpixel (screen fbuf_32bpp_rgb888_re 0x2000) 3 1 0xff8040 empty (omega arith)
      (omega arith) (inr refl)

-- Without a second buffer the screen takes what stands at the start of the memory, not its own lines.
scrolled : (scroll_up none (screen fbuf_32bpp_rgb888_re 0) 1 0 (update empty 20 7)).1 0x1004 ≡ 7
unfolding scroll_up shuffle process_color memset32 fill32 memmove copy_up copy_down
scrolled = refl

scrolled_down :
    (scroll_down none (screen fbuf_32bpp_rgb888_re 0x2000) 1 0 (update empty 0x2003 7)).1 0x2013 ≡ 7
unfolding scroll_down shuffle process_color memset32 fill32 memmove copy_up copy_down
scrolled_down = refl

filled : fill (some (screen fbuf_24bpp_bgr888 0)) 0x0102_03 empty 0x1000 ≡ 1
unfolding fill shuffle process_color putpixel_stub
filled = refl

-- A font that writes the character at its place in a line.
abbrev font : Font
font = record { width = 1; height = 1; draw = λ x y c fg bg transparent m. update m (4 * y + x) c }

-- The string goes on in the next line, and ends at the end of the screen.
written :
    puts_stub (screen fbuf_24bpp_bgr888 0) (some font) 3 0 (65 ∷ 66 ∷ []) 0 0 false empty 4 ≡ 66
unfolding puts_stub
written = refl

written_once : putc_stub (screen fbuf_24bpp_bgr888 0) (some font) 3 0 65 0 0 false empty 3 ≡ 65
unfolding putc_stub
written_once = refl

-- Dirty bits of pages of 4 KB.
abbrev bits : Pages (ℕ → Bool)
bits = record { get_dirty = λ s a. s a; set_dirty = λ a b s. update s a b; get_pgsz = λ s a. 0 }

-- What is written goes to the screen at once where there is no second buffer.
put_at_once :
    puts bits 0 none 7
      (screen fbuf_24bpp_bgr888 0)
      (some font)
      0
      0
      (65 ∷ [])
      0
      0
      false
      (λ a. false)
      empty
    ≡ putc bits 0 none 7
        (screen fbuf_24bpp_bgr888 0)
        (some font)
        0
        0
        65
        0
        0
        false
        (λ a. false)
        empty
unfolding puts putc puts_stub
put_at_once = refl

commit-endless_example :
    commit bits 100 none 7 (screen fbuf_24bpp_bgr888 0x2000) (λ a. false) empty ≡ none
commit-endless_example =
    commit-endless bits 100 7 (screen fbuf_24bpp_bgr888 0x2000) (λ a. false) empty (omega arith)
      (λ e. omega arith) (omega arith) refl refl refl
