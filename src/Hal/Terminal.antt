-- ===== src/Hal/Terminal.antt =====
-- hal/terminal.c: the terminal as the rest of the kernel uses it, over the hooks of an implementation
-- that act on a state of their own. Output is guarded by a mutex, and by switching interrupts off for
-- implementations that do not need them; input by another mutex.
pub mod Guard
pub mod Lines
pub mod Colors
mod Tests
use sysx.Base.{
  ℕ, zero, suc, Bool, true, false, not, Option, none, some, List, [], ◌∷◌, ◌==◌, if◌then◌else◌,
}

-- `term_hook_t`; a hook that is missing is a null pointer. A colour is 32 bits.
pub record TermHook (T : Type 0) : Type 0 where
  pub putc : Option (ℕ → T → T)
  pub puts : Option (List ℕ → T → T)
  pub available : Option (T → ℕ × T)
  pub getc : Option (T → ℕ × T)
  pub clear : Option (T → T)
  pub get_dimensions : Option (T → (ℕ × ℕ) × T)
  pub set_xy : Option (ℕ → ℕ → T → T)
  pub get_xy : Option (T → (ℕ × ℕ) × T)
  pub setfg_indexed : Option (ℕ → T → Bool × T)
  pub getfg_indexed : Option (T → ℕ × T)
  pub setbg_indexed : Option (ℕ → T → Bool × T)
  pub getbg_indexed : Option (T → ℕ × T)
  pub setfg_rgb : Option (ℕ → T → Bool × T)
  pub getfg_rgb : Option (T → ℕ × T)
  pub setbg_rgb : Option (ℕ → T → Bool × T)
  pub getbg_rgb : Option (T → ℕ × T)
  pub out_irq : Bool

-- The state of the implementation, the two mutexes and the interrupt flag.
pub record Term (T : Type 0) : Type 0 where
  pub dev : T
  pub mutex_in : Bool
  pub mutex_out : Bool
  pub interrupts : Bool

module _ {T : Type 0} where
  -- `none` is a wait for a mutex that is held.
  pub outguard_start : Bool → Term T → Option (Bool × Term T)
  outguard_start out_irq s =
      let irq = if out_irq then false else s.interrupts in
      let s' = if out_irq then s else record s { interrupts = false } in
      if s.mutex_out then none else some (irq, record s' { mutex_out = true })

  pub outguard_end : Bool → Term T → Term T
  outguard_end enable_irq s = record s {
    mutex_out = false;
    interrupts = if enable_irq then true else s.interrupts;
  }

  -- A hook between the two. It runs with the mutexes and the interrupt flag as they are then, which it
  -- leaves alone.
  pub output : {A : Type 0} → Bool → (Term T → A × T) → Term T → Option (A × Term T)
  unfolding outguard_start outguard_end
  output out_irq hook s = elim (outguard_start out_irq s) [
    | none ↦ none
    | some (irq, s') ↦
        let (a, dev) = hook s' in some (a, outguard_end irq (record s' { dev = dev }))
  ]

  -- A hook without a result, and one with a result, on the state of the implementation.
  abbrev pub silent : (T → T) → Term T → Unit {0} × T
  silent hook s = (tt, hook s.dev)

  abbrev pub on_dev : {A : Type 0} → (T → A × T) → Term T → A × T
  on_dev hook s = hook s.dev

  unfoldable pub putc : Option (TermHook T) → ℕ → Term T → Option (Unit {0} × Term T)
  unfolding output
  putc none c s = some (tt, s)
  putc (some h) c s = elim h.putc [
    | none ↦ some (tt, s)
    | some hook ↦ output h.out_irq (silent (hook c)) s
  ]

  -- `term_impl->putc` for each character of a string.
  pub put_each : (ℕ → T → T) → List ℕ → T → T
  put_each hook [] dev = dev
  put_each hook (c ∷ cs) dev = put_each hook cs (hook c dev)

  -- The string is its characters before the NUL.
  unfoldable pub puts : Option (TermHook T) → List ℕ → Term T → Option (Unit {0} × Term T)
  unfolding output put_each
  puts none cs s = some (tt, s)
  puts (some h) cs s = elim h.puts [
    | some hook ↦ output h.out_irq (silent (hook cs)) s
    | none ↦ elim h.putc [
      | some hook ↦ output h.out_irq (silent (put_each hook cs)) s
      | none ↦ output h.out_irq (silent (λ dev. dev)) s
    ]
  ]

  unfoldable pub clear : Option (TermHook T) → Term T → Option (Unit {0} × Term T)
  unfolding output
  clear none s = some (tt, s)
  clear (some h) s = elim h.clear [
    | none ↦ some (tt, s)
    | some hook ↦ output h.out_irq (silent hook) s
  ]

  -- `term_get_dimensions` and `term_get_xy`: without the hook nothing is stored.
  pub get_pair : Option (T → (ℕ × ℕ) × T) → Bool → ℕ × ℕ → Term T → Option ((ℕ × ℕ) × Term T)
  unfolding output
  get_pair none out_irq old s = some (old, s)
  get_pair (some hook) out_irq old s = output out_irq (on_dev hook) s

  unfoldable pub get_dimensions : Option (TermHook T) → ℕ × ℕ → Term T → Option ((ℕ × ℕ) × Term T)
  unfolding get_pair
  get_dimensions none old s = some (old, s)
  get_dimensions (some h) old s = get_pair h.get_dimensions h.out_irq old s

  unfoldable pub get_xy : Option (TermHook T) → ℕ × ℕ → Term T → Option ((ℕ × ℕ) × Term T)
  unfolding get_pair
  get_xy none old s = some (old, s)
  get_xy (some h) old s = get_pair h.get_xy h.out_irq old s

  unfoldable pub set_xy : Option (TermHook T) → ℕ → ℕ → Term T → Option (Unit {0} × Term T)
  unfolding output
  set_xy none x y s = some (tt, s)
  set_xy (some h) x y s = elim h.set_xy [
    | none ↦ some (tt, s)
    | some hook ↦ output h.out_irq (silent (hook x y)) s
  ]

  -- Without the hook, 1: reading waits by itself then.
  unfoldable pub available : Option (TermHook T) → Term T → Option (ℕ × Term T)
  available none s = some (1, s)
  available (some h) s = elim h.available [
    | none ↦ some (1, s)
    | some hook ↦
        if s.mutex_in then none else (let (n, dev) = hook s.dev in some (n, record s { dev = dev }))
  ]

  -- `while(!term_impl->available(term_impl));`, on fuel.
  pub wait_available : ℕ → Option (T → ℕ × T) → T → Option T
  wait_available fuel none dev = some dev
  wait_available zero (some hook) dev = none
  wait_available (suc fuel) (some hook) dev =
      let (n, dev') = hook dev in
      elim (n == 0) [ true ↦ wait_available fuel (some hook) dev' | false ↦ some dev' ]

  -- `none` is a wait for the mutex, or for a character that the fuel does not reach.
  unfoldable pub getc_noecho : ℕ → Option (TermHook T) → Term T → Option (ℕ × Term T)
  unfolding wait_available
  getc_noecho fuel none s = some (0, s)
  getc_noecho fuel (some h) s = elim h.getc [
    | none ↦ some (0, s)
    | some hook ↦ if s.mutex_in then none else (elim (wait_available fuel h.available s.dev) [
      | none ↦ none
      | some dev ↦ let (c, dev') = hook dev in some (c, record s { dev = dev' })
    ])
  ]

  -- `term_getc`, which puts out the character.
  unfoldable pub getc : ℕ → Option (TermHook T) → Term T → Option (ℕ × Term T)
  unfolding getc_noecho putc
  getc fuel none s = some (0, s)
  getc fuel (some h) s = elim h.getc [
    | none ↦ some (0, s)
    | some hook ↦ elim (getc_noecho fuel (some h) s) [
      | none ↦ none
      | some (c, s') ↦ elim (putc (some h) c s') [ none ↦ none | some (u, s'') ↦ some (c, s'') ]
    ]
  ]
