-- ===== src/Hal/Keyboard/Tests.antt =====
-- One keyboard, an empty ring and a full one.
use sysx.Base.{ℕ, ◌≡◌, refl, true, false, some, [], ◌∷◌, ◌++◌, arith, get_or}
use sysx.Hal.Keyboard.{Event, no_keyboard, Kbd, keypress}
use sysx.Hal.Keyboard.Ring.{InRing, queue, IsEvent, keypress-queue}

abbrev no_event : Event
no_event = record { id = 0; pressed = false; code = 0; c = 0; mod_mask = 0 }

abbrev kbd : ℕ → ℕ → Kbd
kbd rd wr = record {
  list = record { keymap = λ i. i; mod_mask = 0; in_use = 1 } ∷ [];
  events = λ i. no_event;
  rdidx = rd;
  wridx = wr;
}

key_of_press : ((keypress 0 true 4 (kbd 63 63)).1.events 63).c ≡ 4
unfolding keypress
key_of_press = refl

-- The left shift key goes down.
keypress-queue_example :
    let (i, r) = keypress 0 true 0xe1 (kbd 63 63) in
    (i ≡ some 63)
    × ((e : Event) × (queue r ≡ queue (kbd 63 63) ++ (e ∷ []))
        × IsEvent 0 true 0xe1 (get_or (kbd 63 63).list 0 no_keyboard) e
        × ((get_or r.list 0 no_keyboard).mod_mask ≡ e.mod_mask))
    × InRing r
keypress-queue_example =
    keypress-queue 0 true 0xe1 (kbd 63 63) (omega arith, omega arith) (omega arith) (omega arith)
      (omega arith) (omega arith)
