-- ===== src/Hal/Terminal/Colors.antt =====
-- hal/terminal.c: colours by index and by value, each of which stands in for the other where an
-- implementation has only one of them.
pub mod Palette
pub mod Found
use sysx.Base.{
  ℕ, zero, suc, ◌+◌, Bool, true, false, ◌||◌, Option, none, some, List, [], ◌∷◌, ltb, leb, ◌==◌,
  if◌then◌else◌, get_or, size_max,
}
use sysx.Hal.Terminal.{TermHook, Term, on_dev, output}
use sysx.Hal.Terminal.Colors.Palette.{term_color_palette}

-- The first index from `i` on whose colour it is, or (size_t)-1.
pub find_color : List ℕ → ℕ → ℕ → ℕ
find_color [] i color = size_max
find_color (c ∷ cs) i color =
    let rest = find_color cs (i + 1) color in if c == color then i else rest

module _ {T : Type 0} where
  -- `term_setbg_indexed` and `term_setfg_indexed`, for the two hooks of the ground that is set.
  pub set_indexed :
      Option (ℕ → T → Bool × T)
      → Option (ℕ → T → Bool × T)
      → Bool
      → ℕ
      → Term T
      → Option (Bool × Term T)
  unfolding output
  set_indexed indexed rgb out_irq idx s = if ltb 255 idx then some (false, s) else (elim indexed [
    | some hook ↦ output out_irq (on_dev (hook idx)) s
    | none ↦ elim rgb [
      | some hook ↦ output out_irq (on_dev (hook (get_or term_color_palette idx 0))) s
      | none ↦ some (false, s)
    ]
  ])

  unfoldable pub setbg_indexed : Option (TermHook T) → ℕ → Term T → Option (Bool × Term T)
  unfolding set_indexed
  setbg_indexed none idx s = some (false, s)
  setbg_indexed (some h) idx s = set_indexed h.setbg_indexed h.setbg_rgb h.out_irq idx s

  unfoldable pub setfg_indexed : Option (TermHook T) → ℕ → Term T → Option (Bool × Term T)
  unfolding set_indexed
  setfg_indexed none idx s = some (false, s)
  setfg_indexed (some h) idx s = set_indexed h.setfg_indexed h.setfg_rgb h.out_irq idx s

  -- `term_getbg_indexed` and `term_getfg_indexed`
  pub get_indexed : Option (T → ℕ × T) → Option (T → ℕ × T) → Bool → Term T → Option (ℕ × Term T)
  unfolding output find_color
  get_indexed indexed rgb out_irq s = elim indexed [
    | some hook ↦ output out_irq (on_dev hook) s
    | none ↦ elim rgb [
      | some hook ↦ elim (output out_irq (on_dev hook) s) [
        | none ↦ none
        | some (color, s') ↦ some (find_color term_color_palette 0 color, s')
      ]
      | none ↦ some (size_max, s)
    ]
  ]

  unfoldable pub getbg_indexed : Option (TermHook T) → Term T → Option (ℕ × Term T)
  unfolding get_indexed
  getbg_indexed none s = some (size_max, s)
  getbg_indexed (some h) s = get_indexed h.getbg_indexed h.getbg_rgb h.out_irq s

  unfoldable pub getfg_indexed : Option (TermHook T) → Term T → Option (ℕ × Term T)
  unfolding get_indexed
  getfg_indexed none s = some (size_max, s)
  getfg_indexed (some h) s = get_indexed h.getfg_indexed h.getfg_rgb h.out_irq s

  -- `term_setbg_rgb` and `term_setfg_rgb`
  pub set_rgb : Option (ℕ → T → Bool × T) → Bool → ℕ → Term T → Option (Bool × Term T)
  unfolding output
  set_rgb rgb out_irq color s = if ltb 0xff_ffff color then some (false, s) else (elim rgb [
    | none ↦ some (false, s)
    | some hook ↦ output out_irq (on_dev (hook color)) s
  ])

  unfoldable pub setbg_rgb : Option (TermHook T) → ℕ → Term T → Option (Bool × Term T)
  unfolding set_rgb
  setbg_rgb none color s = some (false, s)
  setbg_rgb (some h) color s = set_rgb h.setbg_rgb h.out_irq color s

  unfoldable pub setfg_rgb : Option (TermHook T) → ℕ → Term T → Option (Bool × Term T)
  unfolding set_rgb
  setfg_rgb none color s = some (false, s)
  setfg_rgb (some h) color s = set_rgb h.setfg_rgb h.out_irq color s

  -- `term_getbg_rgb` and `term_getfg_rgb`; the result has 32 bits.
  pub get_rgb : Option (T → ℕ × T) → Option (T → ℕ × T) → Bool → Term T → Option (ℕ × Term T)
  unfolding output
  get_rgb rgb indexed out_irq s = elim rgb [
    | some hook ↦ output out_irq (on_dev hook) s
    | none ↦ elim indexed [
      | some hook ↦ elim (output out_irq (on_dev hook) s) [
        | none ↦ none
        | some (idx, s') ↦
            some ((if leb idx 255 then get_or term_color_palette idx 0 else size_max), s')
      ]
      | none ↦ some (size_max, s)
    ]
  ]

  -- Without an implementation, `false`.
  unfoldable pub getbg_rgb : Option (TermHook T) → Term T → Option (ℕ × Term T)
  unfolding get_rgb
  getbg_rgb none s = some (0, s)
  getbg_rgb (some h) s = get_rgb h.getbg_rgb h.getbg_indexed h.out_irq s

  unfoldable pub getfg_rgb : Option (TermHook T) → Term T → Option (ℕ × Term T)
  unfolding get_rgb
  getfg_rgb none s = some (0, s)
  getfg_rgb (some h) s = get_rgb h.getfg_rgb h.getfg_indexed h.out_irq s
