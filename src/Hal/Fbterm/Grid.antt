-- ===== src/Hal/Fbterm/Grid.antt =====
-- The cursor of the terminal stays on the screen.
use native.Mathlib.Nat.{
  add-mul, one-mul, le-mul_of_pos_right, div-mul-le_self, mul-le-mul_right, le-div_iff_mul-le,
  div-le_self,
}
use sysx.Base.{
  ℕ, zero, suc, ◌+◌, ◌*◌, ◌/◌, ◌%◌, ◌<◌, ◌≤◌, ◌≡◌, refl, sym, subst, inl, inr, true, false, ◌&&◌,
  Option, none, some, List, [], ◌∷◌, ltb, leb, ◌==◌, ◌!=◌, add_size, sub_size, mul_size, arith,
  Bool-cases, if_both,
}
use sysx.Base.Memory.{Memory}
use sysx.Hal.Fbuf.Screen.{Font, scroll_up-size}
use sysx.Hal.Fbterm.{
  Fbterm, room, room_below, newline, draw, wrap, tab_from, backspace, fbterm_putc_stub, puts,
}

-- The cell at index `a`, of size `f`, lies within `w`.
unfoldable pub Fits : ℕ → ℕ → ℕ → Type 0
Fits w f a = (0 < f) × ((a + 1) * f ≤ w) × (w < 0x1_0000_0000)

-- The cell of the cursor lies on the screen.
unfoldable pub IsOnGrid : Font → Fbterm → Type 0
unfolding Fits
IsOnGrid font s = Fits s.fb.width font.width s.x × Fits s.fb.height font.height s.y

next : (w f a : ℕ) → Fits w f a → add_size a 1 ≡ a + 1
unfolding Fits
next w f a (pos, fits, small) =
    let bound : a + 1 ≤ (a + 1) * f = le-mul_of_pos_right {m = f} (a + 1) pos in omega arith

room-fits :
    (w f p : ℕ)
    → p ≤ w
    → w < 0x1_0000_0000
    → ltb (sub_size w (p % 0x1_0000_0000)) f ≡ false
    → p + f ≤ w
room-fits w f p le small enough = ground arith

next-back : (w f a : ℕ) → Fits w f a → sub_size (add_size a 1) 1 ≡ a
unfolding Fits
next-back w f a (pos, fits, small) =
    let bound : a + 1 ≤ (a + 1) * f = le-mul_of_pos_right {m = f} (a + 1) pos in omega arith

-- The room from the next cell on tells whether it fits.
next-room :
    (w f a : ℕ)
    → Fits w f a
    → ltb (sub_size w (mul_size (add_size a 1) f)) f ≡ false
    → Fits w f (add_size a 1)
unfolding Fits
next-room w f a (pos, fits, small) enough =
    let step : add_size a 1 ≡ a + 1 = next w f a (pos, fits, small) in
    let more : (a + 1 + 1) * f ≡ (a + 1) * f + 1 * f = add-mul (a + 1) 1 f in
    let one : 1 * f ≡ f = one-mul f in
    let enough' : ltb (sub_size w (mul_size (a + 1) f)) f ≡ false =
      subst (λ n. ltb (sub_size w (mul_size n f)) f ≡ false) step enough in
    let enlarged : (a + 1) * f + f ≤ w = room-fits w f ((a + 1) * f) fits small enough' in
    rw step (pos, omega arith, small)

first : (w f a : ℕ) → Fits w f a → Fits w f 0
unfolding Fits
first w f a (pos, fits, small) =
    let bound : (0 + 1) * f ≤ (a + 1) * f = mul-le-mul_right f (omega arith) in
    (pos, omega arith, small)

pred : (w f a : ℕ) → (a != 0) ≡ true → Fits w f a → Fits w f (sub_size a 1)
unfolding Fits
pred w f zero there fits = ground arith
pred w f (suc a) there (pos, fits, small) =
    let bound : suc a + 1 ≤ (suc a + 1) * f = le-mul_of_pos_right {m = f} (suc a + 1) pos in
    let less : (a + 1) * f ≤ (suc a + 1) * f = mul-le-mul_right f (omega arith) in
    let back : sub_size (suc a) 1 ≡ a = omega arith in rw back (pos, omega arith, small)

-- The last cell, where there is one at all.
last : (w f a : ℕ) → Fits w f a → Fits w f (sub_size (w / f) 1)
unfolding Fits
last w f a (pos, fits, small) =
    let some_cells : a + 1 ≤ w / f = (le-div_iff_mul-le {k = f} {x = a + 1} {y = w} pos).1 fits in
    let bound : w / f ≤ w = div-le_self w f in
    let back : sub_size (w / f) 1 + 1 ≡ w / f = omega (arith, some_cells, bound, small) in
    let all : (w / f) * f ≤ w = div-mul-le_self w f in
    (pos, subst (λ n. n * f ≤ w) (sym back) all, small)

module _ (font : Font) (hook : Option (ℕ → Memory → Memory)) where
  -- A new line puts the cursor on the screen wherever it was in the old one.
  newline-IsOnGrid :
      (s : Fbterm) (a : ℕ)
      → Fits s.fb.width font.width a
      → Fits s.fb.height font.height s.y
      → IsOnGrid font (newline font hook s)
  unfolding newline room_below IsOnGrid
  newline-IsOnGrid s a fits_x fits_y =
      let (wide, high) = scroll_up-size hook s.fb font.height s.bg s.memory in
      let start = first s.fb.width font.width a fits_x in
      let back = next-back s.fb.height font.height s.y fits_y in
      elim (Bool-cases (ltb (room_below font hook s (add_size s.y 1)) font.height)) [
        | inl full ↦
            rw (newline, full)
              (
                subst (λ w. Fits w font.width 0) (sym wide) start,
                subst (λ h. Fits h font.height (sub_size (add_size s.y 1) 1)) (sym high)
                    (subst (λ y. Fits s.fb.height font.height y) (sym back) fits_y),
              )
        | inr enough ↦
            rw (newline, enough) (start, next-room s.fb.height font.height s.y fits_y enough)
      ]

  draw-wrap :
      (s : Fbterm) (c : ℕ) → IsOnGrid font s → IsOnGrid font (wrap font hook (draw font hook c s))
  unfolding wrap draw room IsOnGrid
  draw-wrap s c (fits_x, fits_y) =
      elim (Bool-cases (ltb (room font hook (draw font hook c s)) font.width)) [
        | inl full ↦ rw (wrap, full) (newline-IsOnGrid (draw font hook c s) s.x fits_x fits_y)
        | inr enough ↦ rw (wrap, enough) (next-room s.fb.width font.width s.x fits_x enough, fits_y)
      ]

  -- What a step gives: a terminal whose cursor is on the screen.
  pub Gives : Option Fbterm → Type 0
  Gives o = (s' : Fbterm) × (o ≡ some s') × IsOnGrid font s'

  backspace-IsOnGrid : (s : Fbterm) → IsOnGrid font s → IsOnGrid font (backspace font hook s)
  unfolding backspace IsOnGrid
  backspace-IsOnGrid s (fits_x, fits_y) =
      let end = last s.fb.width font.width s.x fits_x in
      elim (Bool-cases (s.x != 0)) [
        | inl right ↦ rw (backspace, right) (pred s.fb.width font.width s.x right fits_x, fits_y)
        | inr left ↦ elim (Bool-cases (s.y != 0)) [
          | inl below ↦
              rw (backspace, left, below) (end, pred s.fb.height font.height s.y below fits_y)
          | inr above ↦ rw (backspace, left, above) (fits_x, fits_y)
        ]
      ]

  tab-IsOnGrid :
      (fuel : ℕ) (s : Fbterm)
      → 4 ≤ fuel + s.x % 4
      → IsOnGrid font s
      → (s' : Fbterm) × (tab_from font hook fuel s ≡ some s') × IsOnGrid font (wrap font hook s')
  unfolding tab_from draw room IsOnGrid
  tab-IsOnGrid zero s enough grid = absurd (omega arith)
  tab-IsOnGrid (suc fuel) s enough (fits_x, fits_y) =
      let s' = draw font hook 32 s in
      let step : add_size s.x 1 ≡ s.x + 1 = next s.fb.width font.width s.x fits_x in
      elim (Bool-cases (leb font.width (room font hook s') && s'.x % 4 != 0)) [
        | inr done ↦ rw (tab_from, done) (s', refl, draw-wrap s 32 (fits_x, fits_y))
        | inl more ↦
            let wide : ltb (room font hook s') font.width ≡ false = ground arith in
            let inside : (add_size s.x 1 % 4 != 0) ≡ true = ground arith in
            let fuel_left : 4 ≤ fuel + add_size s.x 1 % 4 = rounds fuel s.x _ enough step inside in
            rw (tab_from, more)
              (tab-IsOnGrid fuel s' fuel_left
                (next-room s.fb.width font.width s.x fits_x wide, fits_y))
      ]
    where
      rounds :
          (fuel x n : ℕ) → 4 ≤ suc fuel + x % 4 → n ≡ x + 1 → (n % 4 != 0) ≡ true → 4 ≤ fuel + n % 4
      rounds fuel x n enough step inside = ground arith

  -- Whatever character comes, and if the screen has room for one, fbterm_putc ends, and the cell of
  -- the cursor lies on the screen again.
  putc-IsOnGrid : (c : ℕ) (s : Fbterm) → IsOnGrid font s → Gives (fbterm_putc_stub font hook c s)
  unfolding fbterm_putc_stub Gives IsOnGrid
  putc-IsOnGrid c s (fits_x, fits_y) =
      let grid : IsOnGrid font s = (fits_x, fits_y) in
      if_both Gives (c == 8) _ _ (backspace font hook s, refl, backspace-IsOnGrid s grid)
        (if_both Gives (c == 13) _ _
          (record s { x = 0 }, refl, (first s.fb.width font.width s.x fits_x, fits_y))
          (if_both Gives (c == 10) _ _
            (newline font hook s, refl, newline-IsOnGrid s s.x fits_x fits_y)
            (if_both Gives (c == 9) _ _ (tabbed (tab-IsOnGrid 4 s (omega arith) grid))
              (wrap font hook (draw font hook c s), refl, draw-wrap s c grid))))
    where
      tabbed :
          (s' : Fbterm) × (tab_from font hook 4 s ≡ some s') × IsOnGrid font (wrap font hook s')
          → Gives (elim (tab_from font hook 4 s) [ none ↦ none | some t ↦ some (wrap font hook t) ])
      tabbed (s', found, grid) = rw found (wrap font hook s', refl, grid)

  -- With a font whose characters are not empty, and sides of the screen below 2^32: if the cell of the
  -- cursor lies on the screen, fbterm_puts ends for every string, and the cell of the cursor lies on
  -- the screen again, after line feeds, tabs and backspaces too.
  pub puts-IsOnGrid : (cs : List ℕ) (s : Fbterm) → IsOnGrid font s → Gives (puts font hook cs s)
  unfolding puts Gives
  puts-IsOnGrid [] s grid = (s, refl, grid)
  puts-IsOnGrid (c ∷ cs) s grid =
      let (s', found, grid') = putc-IsOnGrid c s grid in
      rw (puts, found) (puts-IsOnGrid cs s' grid')
