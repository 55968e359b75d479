-- ===== src/Hal/Keyboard.antt =====
-- hal/keyboard.c: the keyboards and the ring of their events. Indices of the ring are followed on fuel.
pub mod Modifiers
pub mod Ring
mod Tests
use sysx.Base.{
  ℕ, zero, suc, ◌+◌, ◌-◌, ◌*◌, ◌%◌, Bool, true, false, not, ◌&&◌, ◌||◌, Option, none, some, List,
  [], ◌∷◌, bit_and, bit_or, bit_xor, ltb, ◌==◌, ◌!=◌, if◌then◌else◌, get_or, set, size_max,
}
use sysx.Base.Bits.{complement}
use sysx.Base.Memory.{update}

-- `kbd_event_t`
pub record Event : Type 0 where
  pub id : ℕ
  pub pressed : Bool
  pub code : ℕ
  pub c : ℕ
  pub mod_mask : ℕ

-- `kbd_info_t`; a keymap is what it holds at each offset.
pub record Keyboard : Type 0 where
  pub keymap : ℕ → ℕ
  pub mod_mask : ℕ
  pub in_use : ℕ

abbrev pub no_keyboard : Keyboard
no_keyboard = record { keymap = λ i. 0; mod_mask = 0; in_use = 0 }

-- `kbd_list`, `kbd_events` and the two indices
pub record Kbd : Type 0 where
  pub list : List Keyboard
  pub events : ℕ → Event
  pub rdidx : ℕ
  pub wridx : ℕ

abbrev pub maxnum : ℕ
maxnum = 128

abbrev pub maxevents : ℕ
maxevents = 64

-- The first keyboard that is not in use, or the length.
pub find_unused : List Keyboard → ℕ
find_unused [] = 0
find_unused (k ∷ ks) = let rest = find_unused ks + 1 in if k.in_use == 0 then 0 else rest

-- `kbd_register`; `us_qwerty` is the keymap of that name, `keymap` is `none` for null.
pub register : (ℕ → ℕ) → Option (ℕ → ℕ) → Kbd → Option ℕ × Kbd
unfolding find_unused
register us_qwerty keymap s =
    let i = find_unused s.list in
    let k : Keyboard = record {
      keymap = elim keymap [ none ↦ us_qwerty | some m ↦ m ];
      mod_mask = 0;
      in_use = 1;
    } in
    if ltb i maxnum then (some i, record s { list = set s.list i k }) else (none, s)

pub unregister : ℕ → Kbd → Kbd
unregister id s =
    if ltb id maxnum
    then record s { list = set s.list id (record (get_or s.list id no_keyboard) { in_use = 0 }) }
    else s

-- The next index of the ring.
abbrev pub next : ℕ → ℕ
next i = (i + 1) % maxevents

-- The events of one keyboard, or of all for the id (size_t)-1.
abbrev pub matches : ℕ → Event → Bool
matches id e = id == size_max || e.id == id

-- `kbd_event_peek` from an index on, with the last event found so far. The outer `none`: out of fuel.
pub peek_from : ℕ → Kbd → ℕ → Bool → ℕ → Option ℕ → Option (Option ℕ)
peek_from zero s id last rdidx found = none
peek_from (suc fuel) s id last rdidx found =
    let hit = matches id (s.events rdidx) && (s.events rdidx).code != 0 in
    let rest = peek_from fuel s id last (next rdidx) (if hit then some rdidx else found) in
    if rdidx == s.wridx
    then some (if last then found else none)
    else if hit && not last
    then some (some rdidx)
    else rest

pub event_peek : ℕ → ℕ → Bool → Kbd → Option (Option ℕ)
unfolding peek_from
event_peek fuel id last s = peek_from fuel s id last s.rdidx none

-- `kbd_event_available`
pub count_events : ℕ → Kbd → ℕ → ℕ → Option ℕ
count_events zero s id rdidx = none
count_events (suc fuel) s id rdidx =
    let rest = count_events fuel s id (next rdidx) in
    if rdidx == s.wridx
    then some 0
    else if matches id (s.events rdidx) && (s.events rdidx).code != 0
    then elim rest [ none ↦ none | some n ↦ some (n + 1) ]
    else rest

-- `kbd_char_available`
pub count_chars : ℕ → Kbd → ℕ → ℕ → Option ℕ
count_chars zero s id rdidx = none
count_chars (suc fuel) s id rdidx =
    let rest = count_chars fuel s id (next rdidx) in
    if rdidx == s.wridx
    then some 0
    else if matches id (s.events rdidx) && (s.events rdidx).c != 0
    then elim rest [ none ↦ none | some n ↦ some (n + 1) ]
    else rest

abbrev invalidate : ℕ → Kbd → Kbd
invalidate i s = record s { events = update s.events i (record (s.events i) { code = 0 }) }

-- `while(!kbd_events[kbd_events_rdidx].code && kbd_events_rdidx != kbd_events_wridx)`
pub skip_invalid : ℕ → Kbd → Option Kbd
skip_invalid zero s = none
skip_invalid (suc fuel) s =
    let rest = skip_invalid fuel (record s { rdidx = next s.rdidx }) in
    if (s.events s.rdidx).code == 0 && s.rdidx != s.wridx then rest else some s

-- `kbd_event_read`: what is copied to the buffer, if there is an event.
pub event_read : ℕ → ℕ → Kbd → Option (Option Event × Kbd)
unfolding event_peek skip_invalid
event_read fuel id s = elim (event_peek fuel id false s) [
  | none ↦ none
  | some o ↦ elim o [
    | none ↦ some (none, s)
    | some i ↦
        if i == s.rdidx
        then (elim (skip_invalid fuel (invalidate i s)) [
          | none ↦ none
          | some s' ↦ some (some (s.events i), s')
        ])
        else some (some (s.events i), invalidate i s)
  ]
]

-- The inner loop of `kbd_char_read`: the matching events from `i` up to `stop` become invalid, and
-- the read index moves along with them.
pub invalidate_to : ℕ → ℕ → ℕ → ℕ → Kbd → Option Kbd
invalidate_to zero id stop i s = none
invalidate_to (suc fuel) id stop i s =
    let gone = invalidate i s in
    let moved = if i == s.rdidx then record gone { rdidx = next s.rdidx } else gone in
    let rest = invalidate_to fuel id stop (next i) (if matches id (s.events i) then moved else s) in
    if i == stop then some s else rest

-- The outer loop of `kbd_char_read`.
pub char_read_from : ℕ → ℕ → ℕ → Kbd → Option (ℕ × Kbd)
unfolding invalidate_to
char_read_from zero id rdidx s = none
char_read_from (suc fuel) id rdidx s =
    let rest = char_read_from fuel id (next rdidx) s in
    let taken =
      elim (invalidate_to maxevents id rdidx s.rdidx (invalidate rdidx s))
        as (λ x. Option (ℕ × Kbd)) [
          | none ↦ none
          | some s' ↦ some ((s'.events rdidx).c, record s' { rdidx = next rdidx })
        ] in
    if rdidx == s.wridx
    then some (0, s)
    else if matches id (s.events rdidx) && (s.events rdidx).c != 0
    then taken
    else rest

pub char_read : ℕ → Kbd → Option (ℕ × Kbd)
unfolding char_read_from
char_read id s = char_read_from maxevents id s.rdidx s

-- What a key does to the modifier mask: holds a bit, or turns one over on release.
pub data Modifier : Type 0 where
  holds : ℕ → Modifier
  turns : ℕ → Modifier
  ordinary : Modifier

-- The `switch` of `kbd_keypress`: left and right control, shift, alt and meta, Num Lock, Caps Lock.
pub modifier : ℕ → Modifier
modifier code =
    if code == 0xe0
    then holds 1
    else if code == 0xe4
    then holds 16
    else if code == 0xe1
    then holds 2
    else if code == 0xe5
    then holds 32
    else if code == 0xe2
    then holds 4
    else if code == 0xe6
    then holds 64
    else if code == 0xe3
    then holds 8
    else if code == 0xe7
    then holds 128
    else if code == 0x53
    then turns 256
    else if code == 0x39
    then turns 512
    else ordinary

pub new_mod : ℕ → Bool → ℕ → ℕ
unfolding modifier
new_mod code pressed m = elim (modifier code) [
  | holds bit ↦ bit_or (bit_and m (complement 16 bit)) (if pressed then bit else 0)
  | turns bit ↦ if pressed then m else bit_xor m bit
  | ordinary ↦ m
]

-- The layer of the keymap: Shift, Caps Lock and AltGr.
pub layer : ℕ → ℕ
layer m =
    (if bit_and m 34 != 0 then 1 else 0)
    + (if bit_and m 512 != 0 then 2 else 0)
    + (if bit_and m 64 != 0 then 4 else 0)

-- `kbd_keypress`: the index of the event, or `none` for null. Where the ring is full it discards the
-- first event by `(kbd_events_rdidx + 1) & KBD_MAXEVENTS`.
pub keypress : ℕ → Bool → ℕ → Kbd → Option ℕ × Kbd
unfolding new_mod layer
keypress id pressed code s =
    let k = get_or s.list id no_keyboard in
    let m = new_mod code pressed k.mod_mask in
    let e : Event = record {
      id = id;
      pressed = pressed;
      code = code;
      c = if pressed then k.keymap (layer m * 256 + code) else 0;
      mod_mask = m;
    } in
    let rdidx = if next s.wridx == s.rdidx then bit_and (s.rdidx + 1) maxevents else s.rdidx in
    if not (ltb id maxnum) || k.in_use == 0 then (none, s) else (
      some s.wridx,
      record {
        list = set s.list id (record k { mod_mask = m });
        events = update s.events s.wridx e;
        rdidx = rdidx;
        wridx = next s.wridx;
      },
    )
