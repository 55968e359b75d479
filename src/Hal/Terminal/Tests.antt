-- ===== src/Hal/Terminal/Tests.antt =====
-- A terminal that has a line to give and keeps what is put out.
use sysx.Base.{
  ℕ, ◌+◌, ◌≤◌, ◌≡◌, refl, Bool, true, false, none, some, List, [], ◌∷◌, ◌++◌, length, get_or, arith,
}
use sysx.Base.Memory.{Memory, update}
use sysx.Hal.Terminal.{
  TermHook, Term, output, putc, puts, clear, get_dimensions, get_xy, set_xy, available, getc,
  getc_noecho,
}
use sysx.Hal.Terminal.Guard.{output_lem}
use sysx.Hal.Terminal.Lines.{gets_noecho, gets}
use sysx.Hal.Terminal.Lines.Typed.{Reads, done, next, Line, typed, gets_noecho-typed}
use sysx.Hal.Terminal.Colors.{
  set_indexed, get_indexed, setbg_indexed, setfg_indexed, getbg_indexed, getfg_indexed, setbg_rgb,
  setfg_rgb, getbg_rgb, getfg_rgb,
}
use sysx.Hal.Terminal.Colors.Palette.{term_color_palette}
use sysx.Hal.Terminal.Colors.Found.{get_indexed-set_indexed}

-- What is typed, what is on the screen, and a colour.
record Screen : Type 0 where
  input : List ℕ
  shown : List ℕ
  color : ℕ

abbrev take : Screen → ℕ × Screen
take d = elim d.input [ [] ↦ (10, d) | c ∷ cs ↦ (c, record d { input = cs }) ]

abbrev show : ℕ → Screen → Screen
show c d = record d { shown = d.shown ++ c ∷ [] }

abbrev paint : ℕ → Screen → Bool × Screen
paint c d = (true, record d { color = c })

abbrev look : Screen → ℕ × Screen
look d = (d.color, d)

abbrev hooks : TermHook Screen
hooks = record {
  putc = some show;
  puts = none;
  available = some (λ d. (length d.input, d));
  getc = some take;
  clear = some (λ d. record d { shown = [] });
  get_dimensions = none;
  set_xy = none;
  get_xy = none;
  setfg_indexed = none;
  getfg_indexed = none;
  setbg_indexed = none;
  getbg_indexed = none;
  setfg_rgb = some paint;
  getfg_rgb = some look;
  setbg_rgb = some paint;
  getbg_rgb = some look;
  out_irq = false;
}

abbrev term : List ℕ → List ℕ → Term Screen
term input shown = record {
  dev = record { input = input; shown = shown; color = 0 };
  mutex_in = false;
  mutex_out = false;
  interrupts = true;
}

abbrev empty : Memory
empty a = 0

-- "ab", backspace, "c" and a line feed.
abbrev keys : List ℕ
keys = 97 ∷ 98 ∷ 8 ∷ 99 ∷ []

abbrev line : Term Screen
line = term (97 ∷ 98 ∷ 8 ∷ 99 ∷ 10 ∷ 120 ∷ []) []

keys-Reads : Reads 1 (some hooks) keys line (term (10 ∷ 120 ∷ []) [])
unfolding getc_noecho
keys-Reads = next refl (next refl (next refl (next refl done)))

end_of_line : getc_noecho 1 (some hooks) (term (10 ∷ 120 ∷ []) []) ≡ some (10, term (120 ∷ []) [])
unfolding getc_noecho
end_of_line = refl

gets_noecho-typed_example :
    Line 1
      (some hooks)
      0x100
      (0x100 + length keys)
      (typed [] keys)
      (term (120 ∷ []) [])
      empty
      (gets_noecho 1 (some hooks) 5 0x100 line empty)
gets_noecho-typed_example =
    gets_noecho-typed 1 hooks take 0x100 keys line (term (10 ∷ 120 ∷ []) []) (term (120 ∷ []) [])
      empty refl keys-Reads (refl, (refl, (refl, (refl, tt)))) end_of_line (omega arith)

typed_line : typed [] keys ≡ 97 ∷ 99 ∷ []
unfolding typed
typed_line = refl

-- A backspace at the start of the line wipes what stands before it on the screen.
wiped :
    gets 1 (some hooks) 9 0x100 (term (8 ∷ 10 ∷ []) (62 ∷ [])) empty
    ≡ some (term [] (62 ∷ 8 ∷ 32 ∷ 8 ∷ 13 ∷ 10 ∷ []), update empty 0x100 0)
unfolding gets getc_noecho puts putc
wiped = refl

output_lem_example :
    output {A = Bool × Bool} false
      (λ s. ((s.mutex_out, s.interrupts), show 65 s.dev))
      (term [] (66 ∷ []))
    ≡ some ((true, false), term [] (66 ∷ 65 ∷ []))
output_lem_example =
    output_lem {A = Bool × Bool} false
      (λ (s : Term Screen). ((s.mutex_out, s.interrupts), show 65 s.dev)) (term [] (66 ∷ [])) refl

-- Index 16 is black like index 0, which is found first.
get_indexed-set_indexed_example :
    (b : Bool) × (s' : Term Screen) × (s'' : Term Screen) × (k : ℕ) × (set_indexed none
        (some paint)
        false
        16
        (term [] [])
      ≡ some (b, s'))
    × (get_indexed none (some look) false s' ≡ some (k, s''))
    × (k ≤ 16)
    × (get_or term_color_palette k 0 ≡ get_or term_color_palette 16 0)
get_indexed-set_indexed_example =
    get_indexed-set_indexed paint look false 16 (term [] []) (λ c dev. refl) refl (omega arith)

cleared : clear (some hooks) (term [] (65 ∷ [])) ≡ some (tt, term [] [])
unfolding clear
cleared = refl

no_size : get_dimensions (some hooks) (0, 0) (term [] []) ≡ get_xy (some hooks) (0, 0) (term [] [])
unfolding get_dimensions get_xy
no_size = refl

not_moved : set_xy (some hooks) 3 4 (term [] []) ≡ some (tt, term [] [])
unfolding set_xy
not_moved = refl

waiting : available (some hooks) (term (65 ∷ []) []) ≡ some (1, term (65 ∷ []) [])
unfolding available
waiting = refl

echoed : getc 1 (some hooks) (term (65 ∷ []) []) ≡ some (65, term [] (65 ∷ []))
unfolding getc getc_noecho putc
echoed = refl

painted : setbg_indexed (some hooks) 9 (term [] []) ≡ setbg_rgb (some hooks) 0xff_0000 (term [] [])
unfolding setbg_indexed setbg_rgb term_color_palette
painted = refl

painted_text :
    setfg_indexed (some hooks) 9 (term [] []) ≡ setfg_rgb (some hooks) 0xff_0000 (term [] [])
unfolding setfg_indexed setfg_rgb term_color_palette
painted_text = refl

read_color : getbg_indexed (some hooks) (term [] []) ≡ getbg_rgb (some hooks) (term [] [])
unfolding getbg_indexed getbg_rgb term_color_palette
read_color = refl

read_text_color : getfg_indexed (some hooks) (term [] []) ≡ getfg_rgb (some hooks) (term [] [])
unfolding getfg_indexed getfg_rgb term_color_palette
read_text_color = refl
