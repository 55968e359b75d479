-- ===== src/Hal/Keyboard/Ring.antt =====
-- The ring of events as a queue.
use sysx.Base.{
  ℕ, zero, suc, ◌+◌, ◌-◌, ◌*◌, ◌%◌, ◌<◌, ◌≡◌, ◌≢◌, ap, refl, Bool, true, false, not, ◌||◌, some,
  List, [], ◌∷◌, ◌++◌, arith, ltb, ◌==◌, if◌then◌else◌, get_or, get_or-set_self, length, ◌&&◌,
}
use sysx.Base.Bits.{bit_at, bit_and-pow}
use sysx.Base.Memory.{update}
use sysx.Hal.Keyboard.Modifiers.{MaskAfter, new_mod-MaskAfter, layer-bits}
use sysx.Hal.Keyboard.{
  Keyboard, Event, no_keyboard, Kbd, maxevents, maxnum, next, keypress, new_mod, layer,
}

-- The `n` events from index `i` on.
abbrev pub events_from : (ℕ → Event) → ℕ → ℕ → List Event
events_from m i zero = []
events_from m i (suc n) = m i ∷ events_from m (next i) n

-- How many events wait.
abbrev pub waiting : Kbd → ℕ
waiting s = (s.wridx + maxevents - s.rdidx) % maxevents

-- The events that wait, in their order.
abbrev pub queue : Kbd → List Event
queue s = events_from s.events s.rdidx (waiting s)

-- The event that a key makes.
abbrev pub event_of : ℕ → Bool → ℕ → Kbd → Event
event_of id pressed code s =
    let k = get_or s.list id no_keyboard in
    let m = new_mod code pressed k.mod_mask in
    record {
      id = id;
      pressed = pressed;
      code = code;
      c = if pressed then k.keymap (layer m * 256 + code) else 0;
      mod_mask = m;
    }

-- The index `w` lies `n` behind `i`.
events_from-append :
    (m : ℕ → Event) (e : Event) (i n w : ℕ)
    → i < maxevents
    → n < maxevents
    → w ≡ (i + n) % maxevents
    → events_from (update m w e) i (n + 1) ≡ events_from m i n ++ (e ∷ [])
events_from-append m e i zero w hi hn hw = let at : (w == i) ≡ true = ground arith in rw at
events_from-append m e i (suc n) w hi hn hw =
    let more : suc n + 1 ≡ suc (n + 1) = omega arith in
    let past : (w == i) ≡ false = ground arith in
    rw (more, past)
      (ap (λ es. m i ∷ es)
        (events_from-append m e (next i) n w (omega arith) (omega arith) (omega arith)))

-- The indices lie within the ring.
abbrev pub InRing : Kbd → Type 0
InRing s = (s.rdidx < maxevents) × (s.wridx < maxevents)

-- The event of a key: the key and whether it went down, the mask of modifiers after it, and where it
-- went down the character that the keymap has for it in the layer of the mask.
abbrev pub IsEvent : ℕ → Bool → ℕ → Keyboard → Event → Type 0
IsEvent id pressed code k e =
    (e.id ≡ id)
    × (e.pressed ≡ pressed)
    × (e.code ≡ code)
    × MaskAfter code pressed k.mod_mask e.mod_mask
    × (e.c ≡ (
        if pressed
        then k.keymap (
            ((if bit_at e.mod_mask 1 == 0 && bit_at e.mod_mask 5 == 0 then 0 else 1)
                + 2 * bit_at e.mod_mask 9
                + 4 * bit_at e.mod_mask 6)
              * 256
            + code)
        else 0))

event_of-IsEvent :
    (id : ℕ) (pressed : Bool) (code : ℕ) (s : Kbd)
    → IsEvent id pressed code (get_or s.list id no_keyboard) (event_of id pressed code s)
event_of-IsEvent id pressed code s =
    let k = get_or s.list id no_keyboard in
    (
      refl,
      refl,
      refl,
      new_mod-MaskAfter code pressed k.mod_mask,
      ap (λ l. if pressed then k.keymap (l * 256 + code) else 0)
          (layer-bits (new_mod code pressed k.mod_mask)),
    )

-- While the ring is not full, `kbd_keypress` on a keyboard in use, which stands in the array of keyboards,
-- puts an event behind those that wait, and both indices stay within the ring. The event has the key and whether it went down, the modifier
-- mask after it, which the keyboard keeps, and for a key that went down its character in the layer of
-- the mask. Key 0xe0 + k makes bit k of the mask 1 while it is down; Num Lock and Caps Lock turn theirs
-- over on release; the layer counts 1 for shift, 2 for Caps Lock and 4 for the right alt key.
pub keypress-queue :
    (id : ℕ) (pressed : Bool) (code : ℕ) (s : Kbd)
    → InRing s
    → id < maxnum
    → id < length s.list
    → (get_or s.list id no_keyboard).in_use ≢ 0
    → waiting s < 63
    → let (i, r) = keypress id pressed code s in
      (i ≡ some s.wridx)
      × ((e : Event) × (queue r ≡ queue s ++ (e ∷ []))
          × IsEvent id pressed code (get_or s.list id no_keyboard) e
          × ((get_or r.list id no_keyboard).mod_mask ≡ e.mod_mask))
      × InRing r
unfolding keypress
keypress-queue id pressed code s (hr, hw) known listed used room =
    let free : (next s.wridx == s.rdidx) ≡ false = ground arith in
    let ready : (not (ltb id maxnum) || (get_or s.list id no_keyboard).in_use == 0) ≡ false =
      ground arith in
    let count : (next s.wridx + maxevents - s.rdidx) % maxevents ≡ waiting s + 1 = omega arith in
    let e = event_of id pressed code s in
    rw (ready, free, count)
      (
        refl,
        (
          e,
          events_from-append s.events e s.rdidx (waiting s) s.wridx hr (omega arith) (omega arith),
          event_of-IsEvent id pressed code s,
          ap (λ (k : Keyboard). k.mod_mask)
              (get_or-set_self s.list id
                (record (get_or s.list id no_keyboard) { mod_mask = e.mod_mask }) no_keyboard
                listed),
        ),
        (hr, omega arith),
      )

-- When the ring is full, `kbd_keypress` on a keyboard in use sets the read index to 0, or to 64, which
-- lies past the array, if it was 63.
pub keypress-full :
    (id : ℕ) (pressed : Bool) (code : ℕ) (s : Kbd)
    → InRing s
    → id < maxnum
    → (get_or s.list id no_keyboard).in_use ≢ 0
    → waiting s ≡ 63
    → (keypress id pressed code s).1.rdidx ≡ (if s.rdidx == 63 then 64 else 0)
unfolding keypress
keypress-full id pressed code s (hr, hw) known used full =
    let end : (next s.wridx == s.rdidx) ≡ true = ground arith in
    let ready : (not (ltb id maxnum) || (get_or s.list id no_keyboard).in_use == 0) ≡ false =
      ground arith in
    let bit = bit_and-pow (s.rdidx + 1) 6 in rw (ready, end) (ground (arith, bit))
