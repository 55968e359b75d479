-- ===== src/Hal/Terminal/Colors/Found.antt =====
-- A colour that was set by its index, read as an index.
use sysx.Base.{
  ℕ, zero, suc, ◌+◌, ◌≤◌, ◌<◌, ◌≡◌, refl, ◌∙◌, Bool-cases, inl, inr, Bool, false, none, some, List,
  [], ◌∷◌, length, ltb, ◌==◌, get_or, arith,
}
use sysx.Hal.Terminal.{Term, on_dev}
use sysx.Hal.Terminal.Guard.{output_lem}
use sysx.Hal.Terminal.Colors.{find_color, set_indexed, get_indexed}
use sysx.Hal.Terminal.Colors.Palette.{term_color_palette}

-- The index that is found for a colour of the list.
find_color-Found :
    (pal : List ℕ) (start idx : ℕ)
    → idx < length pal
    → (k : ℕ) × (find_color pal start (get_or pal idx 0) ≡ start + k)
      × (k ≤ idx)
      × (get_or pal k 0 ≡ get_or pal idx 0)
unfolding find_color
find_color-Found [] start idx few = absurd (omega arith)
find_color-Found (c ∷ cs) start zero few = (0, ground arith, omega arith, refl)
find_color-Found (c ∷ cs) start (suc idx) few =
    let (k, found, le, same) = find_color-Found cs (start + 1) idx (omega arith) in
    elim (Bool-cases (c == get_or cs idx 0)) [
      | inl here ↦ (0, rw here (omega arith), omega arith, ground arith)
      | inr later ↦ (suc k, rw (later, found) (omega arith), omega arith, same)
    ]

palette-length : length term_color_palette ≡ 256
unfolding term_color_palette
palette-length = refl

module _ {T : Type 0} where
  reads_index :
      (get : T → ℕ × T) (out_irq : Bool) (color k : ℕ) (s : Term T)
      → s.mutex_out ≡ false
      → (get s.dev).0 ≡ color
      → find_color term_color_palette 0 color ≡ k
      → get_indexed none (some get) out_irq s ≡ some (k, record s { dev = (get s.dev).1 })
  unfolding get_indexed
  reads_index get out_irq color k s free gives found =
      rw (get_indexed, output_lem out_irq (on_dev get) s free, gives, found) refl

  -- With an implementation that knows colours by value only, and gives back the last colour that was
  -- set, and with the output mutex free: setting a colour by an index up to 255 and asking for the
  -- index ends, and gives an index that is no larger and stands for the same colour.
  pub get_indexed-set_indexed :
      (set : ℕ → T → Bool × T) (get : T → ℕ × T) (out_irq : Bool) (idx : ℕ) (s : Term T)
      → ((c : ℕ) (dev : T) → (get (set c dev).1).0 ≡ c)
      → s.mutex_out ≡ false
      → idx ≤ 255
      → (b : Bool) × (s' : Term T) × (s'' : Term T) × (k : ℕ) × (set_indexed none
            (some set)
            out_irq
            idx
            s
          ≡ some (b, s'))
        × (get_indexed none (some get) out_irq s' ≡ some (k, s''))
        × (k ≤ idx)
        × (get_or term_color_palette k 0 ≡ get_or term_color_palette idx 0)
  unfolding set_indexed
  get_indexed-set_indexed set get out_irq idx s keeps free known =
      let color = get_or term_color_palette idx 0 in
      let (k, found, le, same) =
        find_color-Found term_color_palette 0 idx (omega (arith, palette-length)) in
      let s' : Term T = record s { dev = (set color s.dev).1 } in
      let s'' : Term T = record s' { dev = (get s'.dev).1 } in
      let below : ltb 255 idx ≡ false = ground arith in
      (
        (set color s.dev).0,
        s',
        s'',
        k,
        rw below (output_lem out_irq (on_dev (set color)) s free),
        reads_index get out_irq color k s' free (keeps color s.dev) (found ∙ omega arith),
        le,
        same,
      )
