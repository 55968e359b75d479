-- ===== src/Hal/Terminal/Colors/Palette.antt =====
-- The colours of hal/terminal.c for the indices below 256.
use sysx.Base.{ℕ, List, [], ◌∷◌}

unfoldable pub term_color_palette : List ℕ
term_color_palette =
    0x000000 ∷ 0x800000 ∷ 0x008000 ∷ 0x808000 ∷ 0x000080 ∷ 0x800080 ∷ 0x008080 ∷ 0xc0c0c0 ∷ 0x808080
    ∷ 0xff0000 ∷ 0x00ff00 ∷ 0xffff00 ∷ 0x0000ff ∷ 0xff00ff ∷ 0x00ffff ∷ 0xffffff ∷ 0x000000
    ∷ 0x00002a ∷ 0x000054 ∷ 0x00007e ∷ 0x0000a8 ∷ 0x0000d2 ∷ 0x002a00 ∷ 0x002a2a ∷ 0x002a54
    ∷ 0x002a7e ∷ 0x002aa8 ∷ 0x002ad2 ∷ 0x005400 ∷ 0x00542a ∷ 0x005454 ∷ 0x00547e ∷ 0x0054a8
    ∷ 0x0054d2 ∷ 0x007e00 ∷ 0x007e2a ∷ 0x007e54 ∷ 0x007e7e ∷ 0x007ea8 ∷ 0x007ed2 ∷ 0x00a800
    ∷ 0x00a82a ∷ 0x00a854 ∷ 0x00a87e ∷ 0x00a8a8 ∷ 0x00a8d2 ∷ 0x00d200 ∷ 0x00d22a ∷ 0x00d254
    ∷ 0x00d27e ∷ 0x00d2a8 ∷ 0x00d2d2 ∷ 0x002a00 ∷ 0x002a2a ∷ 0x002a54 ∷ 0x002a7e ∷ 0x002aa8
    ∷ 0x002ad2 ∷ 0x002a00 ∷ 0x002a2a ∷ 0x002a54 ∷ 0x002a7e ∷ 0x002aa8 ∷ 0x002ad2 ∷ 0x007e00
    ∷ 0x007e2a ∷ 0x007e54 ∷ 0x007e7e ∷ 0x007ea8 ∷ 0x007ed2 ∷ 0x007e00 ∷ 0x007e2a ∷ 0x007e54
    ∷ 0x007e7e ∷ 0x007ea8 ∷ 0x007ed2 ∷ 0x00aa00 ∷ 0x00aa2a ∷ 0x00aa54 ∷ 0x00aa7e ∷ 0x00aaa8
    ∷ 0x00aad2 ∷ 0x00fa00 ∷ 0x00fa2a ∷ 0x00fa54 ∷ 0x00fa7e ∷ 0x00faa8 ∷ 0x00fad2 ∷ 0x005400
    ∷ 0x00542a ∷ 0x005454 ∷ 0x00547e ∷ 0x0054a8 ∷ 0x0054d2 ∷ 0x007e00 ∷ 0x007e2a ∷ 0x007e54
    ∷ 0x007e7e ∷ 0x007ea8 ∷ 0x007ed2 ∷ 0x005400 ∷ 0x00542a ∷ 0x005454 ∷ 0x00547e ∷ 0x0054a8
    ∷ 0x0054d2 ∷ 0x007e00 ∷ 0x007e2a ∷ 0x007e54 ∷ 0x007e7e ∷ 0x007ea8 ∷ 0x007ed2 ∷ 0x00fc00
    ∷ 0x00fc2a ∷ 0x00fc54 ∷ 0x00fc7e ∷ 0x00fca8 ∷ 0x00fcd2 ∷ 0x00d600 ∷ 0x00d62a ∷ 0x00d654
    ∷ 0x00d67e ∷ 0x00d6a8 ∷ 0x00d6d2 ∷ 0x007e00 ∷ 0x007e2a ∷ 0x007e54 ∷ 0x007e7e ∷ 0x007ea8
    ∷ 0x007ed2 ∷ 0x007e00 ∷ 0x007e2a ∷ 0x007e54 ∷ 0x007e7e ∷ 0x007ea8 ∷ 0x007ed2 ∷ 0x007e00
    ∷ 0x007e2a ∷ 0x007e54 ∷ 0x007e7e ∷ 0x007ea8 ∷ 0x007ed2 ∷ 0x007e00 ∷ 0x007e2a ∷ 0x007e54
    ∷ 0x007e7e ∷ 0x007ea8 ∷ 0x007ed2 ∷ 0x00fe00 ∷ 0x00fe2a ∷ 0x00fe54 ∷ 0x00fe7e ∷ 0x00fea8
    ∷ 0x00fed2 ∷ 0x00fe00 ∷ 0x00fe2a ∷ 0x00fe54 ∷ 0x00fe7e ∷ 0x00fea8 ∷ 0x00fed2 ∷ 0x00a800
    ∷ 0x00a82a ∷ 0x00a854 ∷ 0x00a87e ∷ 0x00a8a8 ∷ 0x00a8d2 ∷ 0x00aa00 ∷ 0x00aa2a ∷ 0x00aa54
    ∷ 0x00aa7e ∷ 0x00aaa8 ∷ 0x00aad2 ∷ 0x00fc00 ∷ 0x00fc2a ∷ 0x00fc54 ∷ 0x00fc7e ∷ 0x00fca8
    ∷ 0x00fcd2 ∷ 0x00fe00 ∷ 0x00fe2a ∷ 0x00fe54 ∷ 0x00fe7e ∷ 0x00fea8 ∷ 0x00fed2 ∷ 0x00a800
    ∷ 0x00a82a ∷ 0x00a854 ∷ 0x00a87e ∷ 0x00a8a8 ∷ 0x00a8d2 ∷ 0x00fa00 ∷ 0x00fa2a ∷ 0x00fa54
    ∷ 0x00fa7e ∷ 0x00faa8 ∷ 0x00fad2 ∷ 0x00d200 ∷ 0x00d22a ∷ 0x00d254 ∷ 0x00d27e ∷ 0x00d2a8
    ∷ 0x00d2d2 ∷ 0x00fa00 ∷ 0x00fa2a ∷ 0x00fa54 ∷ 0x00fa7e ∷ 0x00faa8 ∷ 0x00fad2 ∷ 0x00d600
    ∷ 0x00d62a ∷ 0x00d654 ∷ 0x00d67e ∷ 0x00d6a8 ∷ 0x00d6d2 ∷ 0x00fe00 ∷ 0x00fe2a ∷ 0x00fe54
    ∷ 0x00fe7e ∷ 0x00fea8 ∷ 0x00fed2 ∷ 0x00fa00 ∷ 0x00fa2a ∷ 0x00fa54 ∷ 0x00fa7e ∷ 0x00faa8
    ∷ 0x00fad2 ∷ 0x00d200 ∷ 0x00d22a ∷ 0x00d254 ∷ 0x00d27e ∷ 0x00d2a8 ∷ 0x00d2d2 ∷ 0x000000
    ∷ 0x0a0a0a ∷ 0x141414 ∷ 0x1e1e1e ∷ 0x282828 ∷ 0x323232 ∷ 0x3c3c3c ∷ 0x464646 ∷ 0x505050
    ∷ 0x5a5a5a ∷ 0x646464 ∷ 0x6e6e6e ∷ 0x787878 ∷ 0x828282 ∷ 0x8c8c8c ∷ 0x969696 ∷ 0xa0a0a0
    ∷ 0xaaaaaa ∷ 0xb4b4b4 ∷ 0xbebebe ∷ 0xc8c8c8 ∷ 0xd2d2d2 ∷ 0xdcdcdc ∷ 0xe6e6e6 ∷ []
