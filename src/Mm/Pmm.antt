-- ===== src/Mm/Pmm.antt =====
-- mm/pmm.c, the page frame allocator: a bitmap with one bit for each frame, set while it is in use.
pub mod Bitmap
pub mod Search
pub mod FirstFit
pub mod Allocate
mod Tests
use sysx.Base.{
  ℕ, zero, suc, ◌+◌, ◌/◌, ◌%◌, ◌^◌, Bool, Option, none, some, bit_and, bit_or, ltb, ◌==◌, ◌!=◌,
  if◌then◌else◌, add_size, size_max,
}
use sysx.Base.Bits.{complement}
use sysx.Base.Memory.{update}

-- `pmm_bitmap` is a bare pointer: `bitmap off` is the word at offset `off` from it, also past the
-- words that `pmm_init` prepared.
pub record Pmm : Type 0 where
  pub bitmap : ℕ → ℕ
  pub frames : ℕ

-- `pmm_alloc` returns 0 or -1.
pub data Status : Type 0 where
  ok in_use : Status

pub alloc : Pmm → ℕ → Status × Pmm
alloc p frame =
    let off = frame / 32 in
    let bit = frame % 32 in
    if bit_and (p.bitmap off) (2 ^ bit) != 0
    then (in_use, p)
    else (ok, record p { bitmap = update p.bitmap off (bit_or (p.bitmap off) (2 ^ bit)) })

pub free : Pmm → ℕ → Pmm
free p frame =
    let off = frame / 32 in
    let bit = frame % 32 in
    record p { bitmap = update p.bitmap off (bit_and (p.bitmap off) (complement 32 (2 ^ bit))) }

-- The `for` loop of `pmm_first_free` with `left` rounds to go: the frame at which the run from
-- `frame` breaks, or `(size_t)-1`.
pub run_break : Pmm → ℕ → ℕ → ℕ → ℕ
run_break p frame i zero = size_max
run_break p frame i (suc left) =
    let at = add_size frame i in
    let word = p.bitmap (at / 32) in
    if word == size_max
    then at
    else if bit_and word (2 ^ (at % 32)) != 0
    then at
    else run_break p frame (i + 1) left

-- What one round of the `while` loop of `pmm_first_free` comes to.
pub data Round : Type 0 where
  found : ℕ → Round
  resume : ℕ → Round

pub probe : Pmm → ℕ → ℕ → Round
probe p sz frame =
    let word = p.bitmap (frame / 32) in
    if word == size_max
    then resume (add_size frame 1)
    else if bit_and word (2 ^ (frame % 32)) == 0
    then (let fail = run_break p frame 0 sz in
        if fail != size_max then resume (add_size (add_size fail 1) 1) else found frame)
    else resume (add_size frame 1)

-- `none` means that the fuel ran out.
pub search : ℕ → Pmm → ℕ → ℕ → Option ℕ
search zero p sz frame = none
search (suc fuel) p sz frame =
    if ltb frame p.frames
    then elim (probe p sz frame) [ found f ↦ some f | resume f ↦ search fuel p sz f ]
    else some size_max

-- Each round moves on by a frame at least.
pub first_free : Pmm → ℕ → Option ℕ
unfolding search
first_free p sz = search (p.frames + 1) p sz 0

-- `for(size_t i = 0; i < sz; i++) pmm_alloc(frame + i);`
pub alloc_run : Pmm → ℕ → ℕ → ℕ → Pmm
unfolding alloc
alloc_run p frame i zero = p
alloc_run p frame i (suc left) = alloc_run (alloc p (add_size frame i)).1 frame (i + 1) left

-- The body of `pmm_alloc_free`, which runs under `pmm_alloc_mutex`.
pub alloc_free : Pmm → ℕ → Option (ℕ × Pmm)
alloc_free p sz = elim (first_free p sz) [
  | none ↦ none
  | some frame ↦ some (frame, if frame != size_max then alloc_run p frame 0 sz else p)
]
