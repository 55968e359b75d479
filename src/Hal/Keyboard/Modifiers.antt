-- ===== src/Hal/Keyboard/Modifiers.antt =====
-- `kbd_keypress`: the modifier mask, by the bits of a USB keyboard, where key 0xe0 + k holds bit k, and
-- the layer of the keymap.
use sysx.Base.{
  ℕ, zero, suc, ◌+◌, ◌-◌, ◌*◌, ◌/◌, ◌^◌, ◌<◌, ◌≤◌, ◌≡◌, ◌≢◌, ◌⊎◌, refl, subst, ◌∙◌, sym, Bool, true,
  false, ◌&&◌, arith, ◌==◌, if◌then◌else◌, bit_and, bit_or, bit_xor, ◌%◌,
}
use Prim.Native.Nat.{min}
use sysx.Base.Bits.{
  bit_at, bit_at-zero, bit_at-bit_or, bit_at-set, bit_at-clear, bit_at-le, bit_and-pow, complement,
}
use sysx.Base.Bits.Step.{bit_and_step}
use sysx.Hal.Keyboard.{holds, ordinary, modifier, new_mod, layer}

-- A key that holds bit `j` of the mask.
held-bits :
    (pressed : Bool) (m j k : ℕ)
    → j < 16
    → k < 16
    → bit_at (bit_or (bit_and m (complement 16 (2 ^ j))) (if pressed then 2 ^ j else 0)) k
      ≡ (if j == k then (if pressed then 1 else 0) else bit_at m k)
held-bits true m j k small inside =
    bit_at-set (bit_and m (complement 16 (2 ^ j))) j k
    ∙ ground (arith, bit_at-clear 16 m j k small inside)
held-bits false m j k small inside =
    bit_at-bit_or (bit_and m (complement 16 (2 ^ j))) 0 k
    ∙ ground (arith, bit_at-clear 16 m j k small inside, bit_at-zero k)

modifier-held : (j : ℕ) → j < 8 → modifier (0xe0 + j) ≡ holds (2 ^ j)
unfolding modifier
modifier-held zero h = refl
modifier-held (suc zero) h = refl
modifier-held (suc (suc zero)) h = refl
modifier-held (suc (suc (suc zero))) h = refl
modifier-held (suc (suc (suc (suc zero)))) h = refl
modifier-held (suc (suc (suc (suc (suc zero))))) h = refl
modifier-held (suc (suc (suc (suc (suc (suc zero)))))) h = refl
modifier-held (suc (suc (suc (suc (suc (suc (suc zero))))))) h = refl
modifier-held (suc (suc (suc (suc (suc (suc (suc (suc j)))))))) h = absurd (omega arith)

modifier_other :
    (code : ℕ)
    → (code < 0xe0) ⊎ (0xe7 < code)
    → code ≢ 0x53
    → code ≢ 0x39
    → modifier code ≡ ordinary
unfolding modifier
modifier_other code out num caps = ground arith

-- The mask `m'` after a key, where it was `m`: a control, shift, alt or meta key makes its bit 1 while it
-- is down, Num Lock and Caps Lock turn theirs over when they are released, and no other bit changes.
abbrev pub MaskAfter : ℕ → Bool → ℕ → ℕ → Type 0
MaskAfter code pressed m m' =
    ((k : ℕ)
      → 0xe0 ≤ code
      → code ≤ 0xe7
      → k < 16
      → bit_at m' k ≡ (if code == 0xe0 + k then (if pressed then 1 else 0) else bit_at m k))
    × (code ≡ 0x53 → m' ≡ (if pressed then m else bit_xor m (2 ^ 8)))
    × (code ≡ 0x39 → m' ≡ (if pressed then m else bit_xor m (2 ^ 9)))
    × ((code < 0xe0) ⊎ (0xe7 < code) → code ≢ 0x53 → code ≢ 0x39 → m' ≡ m)

pub new_mod-MaskAfter :
    (code : ℕ) (pressed : Bool) (m : ℕ) → MaskAfter code pressed m (new_mod code pressed m)
unfolding new_mod modifier
new_mod-MaskAfter code pressed m = (
  λ k low high inside.
      let j = code - 0xe0 in
      let e : 0xe0 + j ≡ code = omega arith in
      let held : modifier code ≡ holds (2 ^ j) = rw e at (modifier-held j (omega arith)) in
      rw (new_mod, held) (held-bits pressed m j k (omega arith) inside ∙ ground arith),
  λ num.
      subst (λ c. new_mod c pressed m ≡ (if pressed then m else bit_xor m (2 ^ 8))) (sym num) refl,
  λ caps.
      subst (λ c. new_mod c pressed m ≡ (if pressed then m else bit_xor m (2 ^ 9))) (sym caps) refl,
  λ out num caps. rw (new_mod, modifier_other code out num caps) refl,
)

and_shift : (m : ℕ) → bit_and m 34 ≡ bit_at m 1 * 2 + bit_at m 5 * 32
and_shift m =
    let whole : bit_and m 34 ≡ min (m % 2) 0 + bit_and (m / 2) 17 * 2 = bit_and_step m 34 in
    let odd : bit_and (m / 2) 17 ≡ min (m / 2 % 2) 1 + bit_and (m / 2 / 2) 8 * 2 =
      bit_and_step (m / 2) 17 in
    let one : bit_and (m / 2 / 2) 8 ≡ bit_at (m / 2 / 2) 3 * 8 = bit_and-pow (m / 2 / 2) 3 in
    omega (arith, whole, odd, one)

-- A shift key that is down counts 1, Caps Lock 2 and the right alt key 4.
pub layer-bits :
    (m : ℕ)
    → layer m
      ≡ (if bit_at m 1 == 0 && bit_at m 5 == 0 then 0 else 1) + 2 * bit_at m 9 + 4 * bit_at m 6
unfolding layer
layer-bits m =
    ground (arith, and_shift m, bit_and-pow m 9, bit_and-pow m 6, bit_at-le m 9, bit_at-le m 6)
