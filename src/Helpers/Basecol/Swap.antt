-- ===== src/Helpers/Basecol/Swap.antt =====
-- The swapping loop reverses the buffer.
use mathlib.Core.List.{reverse}
use sysx.Base.{
  ℕ, zero, suc, ◌+◌, ◌-◌, ◌*◌, ◌/◌, ◌≤◌, ◌<◌, ◌≡◌, ◌∙◌, sym, refl, List, arith, ◌&&◌, ◌||◌, leb,
  ltb, ◌==◌, if◌then◌else◌, length, get_or, set, length-set, length-reverse, get_or-reverse,
  list_ext, get_or-set_self, get_or-set_ne,
}
use sysx.Helpers.Basecol.{swap_loop}

length-swap_loop : (off i left : ℕ) (xs : List ℕ) → length (swap_loop off i left xs) ≡ length xs
unfolding swap_loop
length-swap_loop off i zero xs = refl
length-swap_loop off i (suc left) xs =
    length-swap_loop off (i + 1) left _
    ∙ length-set (set xs i (get_or xs (off - 1 - i) 0)) (off - 1 - i) (get_or xs i 0)
    ∙ length-set xs i (get_or xs (off - 1 - i) 0)

get_or-set2 :
    (xs : List ℕ) (i k a b j : ℕ)
    → i < length xs
    → k < length xs
    → get_or (set (set xs i a) k b) j 0
      ≡ (if k == j then b else if i == j then a else get_or xs j 0)
get_or-set2 xs i k a b j hi hk = ground (
  arith,
  length-set xs i a,
  get_or-set_self (set xs i a) k b 0,
  get_or-set_ne (set xs i a) k j b 0,
  get_or-set_self xs i a 0,
  get_or-set_ne xs i j a 0,
)

swap_loop_lem :
    (off i left j : ℕ) (xs : List ℕ)
    → off ≡ length xs
    → (i + left) * 2 ≤ off
    → j < off
    → get_or (swap_loop off i left xs) j 0 ≡ (
        if (leb i j && ltb j (i + left)) || (leb (off - i - left) j && ltb j (off - i))
        then get_or xs (off - 1 - j) 0
        else get_or xs j 0)
unfolding swap_loop
swap_loop_lem off i zero j xs e h lt = ground arith
swap_loop_lem off i (suc left) j xs e h lt =
    let k = off - 1 - i in
    let a = get_or xs k 0 in
    let b = get_or xs i 0 in
    ground (
      arith,
      swap_loop_lem off (i + 1) left j (set (set xs i a) k b),
      length-set (set xs i a) k b,
      length-set xs i a,
      get_or-set2 xs i k a b j,
      get_or-set2 xs i k a b (off - 1 - j),
    )

-- Every character ends up at the mirror image of its place.
pub swap_loop-mirror :
    (xs : List ℕ) (j : ℕ)
    → j < length xs
    → get_or (swap_loop (length xs) 0 (length xs / 2) xs) j 0 ≡ get_or xs (length xs - 1 - j) 0
swap_loop-mirror xs j lt =
    swap_loop_lem (length xs) 0 (length xs / 2) j xs refl (omega arith) lt ∙ ground arith

-- The second loop of `basecol_encode` turns the buffer round.
pub swap_loop-reverse : (xs : List ℕ) → swap_loop (length xs) 0 (length xs / 2) xs ≡ reverse xs
swap_loop-reverse xs =
    let same = length-swap_loop (length xs) 0 (length xs / 2) xs in
    list_ext _ (reverse xs) 0 (same ∙ sym (length-reverse xs)) λ j lt.
      let inside : j < length xs = omega (arith, same) in
      swap_loop-mirror xs j inside ∙ sym (get_or-reverse xs j 0 inside)
