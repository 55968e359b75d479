-- ===== src/Hal/Terminal/Guard.antt =====
-- The guard of the output functions.
use sysx.Base.{◌≡◌, Bool, true, false, some, arith, if◌then◌else◌}
use sysx.Hal.Terminal.{Term, output}

module _ {T : Type 0} where
  -- What a hook sees of the terminal: the output mutex is held, and interrupts are off unless the
  -- implementation needs them.
  abbrev pub guarded : Bool → Term T → Term T
  guarded out_irq s = record s {
    mutex_out = true;
    interrupts = if out_irq then s.interrupts else false;
  }

  -- If the output mutex is free, a hook runs with it held, and with interrupts off unless the
  -- implementation needs them. Afterwards the state of the implementation is what the hook made of it,
  -- the mutex is free again, and interrupts are on exactly if they were before.
  pub output_lem :
      {A : Type 0} (out_irq : Bool) (hook : Term T → A × T) (s : Term T)
      → s.mutex_out ≡ false
      → output out_irq hook s
        ≡ some ((hook (guarded out_irq s)).0, record s { dev = (hook (guarded out_irq s)).1 })
  unfolding output
  output_lem out_irq hook s free = ground arith
