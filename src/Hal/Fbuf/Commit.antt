-- ===== src/Hal/Fbuf/Commit.antt =====
-- `fbuf_commit`: the second buffer is copied to the first, page by page where the pages say which of
-- them were written.
use sysx.Base.{
  ℕ, zero, suc, ◌<◌, ◌≡◌, ◌≢◌, refl, Bool, true, false, ◌||◌, Option, none, some, ltb, ◌==◌,
  if◌then◌else◌, add_size, sub_size, mul_size, size_max, arith, List, leb,
}
use sysx.Base.Memory.{Memory}
use sysx.Libc.String.{memcpy}
use sysx.Mm.Vmm.{pgsz}
use sysx.Hal.Fbuf.{Fbuf}
use sysx.Hal.Fbuf.Screen.{Font, puts_stub}

-- The calls of the target on the address space of the kernel, for a state of it.
pub record Pages (S : Type 0) : Type 0 where
  pub get_dirty : S → ℕ → Bool
  pub set_dirty : ℕ → Bool → S → S
  pub get_pgsz : S → ℕ → ℕ

module _ {S : Type 0} (t : Pages S) where
  -- The loop that clears the dirty bits of all pages from `off` on; `none` means that an assertion
  -- failed or that the fuel ran out.
  pub clean_all : ℕ → ℕ → ℕ → ℕ → S → Option S
  clean_all zero fb_size off back s = none
  clean_all (suc fuel) fb_size off back s = elim (ltb off fb_size) [
    | false ↦ some s
    | true ↦
        let s' = t.set_dirty back false s in
        let idx = t.get_pgsz s' back in
        elim (idx == size_max) [
          | true ↦ none
          | false ↦ clean_all fuel fb_size (add_size off (pgsz idx)) (add_size back (pgsz idx)) s'
        ]
  ]

  -- The loop that copies the pages that were written, from `off` on; `size` is the variable `pgsz`.
  pub copy_dirty : ℕ → Fbuf → ℕ → ℕ → ℕ → ℕ → S → Memory → Option (S × Memory)
  copy_dirty zero fb fb_size off size back s m = none
  copy_dirty (suc fuel) fb fb_size off size back s m = elim (ltb off fb_size) [
    | false ↦ some (s, m)
    | true ↦ elim (t.get_dirty s back) [
      | false ↦ copy_dirty fuel fb fb_size (add_size off size) size (add_size back size) s m
      | true ↦
          let left = sub_size fb_size off in
          let n = if ltb left size then left else size in
          let s' = t.set_dirty back false s in
          let idx = t.get_pgsz s' back in
          elim (idx == size_max) [
            | true ↦ none
            | false ↦
                copy_dirty fuel fb fb_size (add_size off (pgsz idx)) (pgsz idx)
                  (add_size back (pgsz idx)) s' (memcpy (add_size fb.framebuffer off) back n m)
          ]
    ]
  ]

  -- `fbuf_commit`; `flip` is the accelerated function, and `timer_tick` the time.
  pub commit : ℕ → Option (Memory → Memory) → ℕ → Fbuf → S → Memory → Option (Fbuf × (S × Memory))
  unfolding clean_all copy_dirty
  commit fuel flip timer_tick fb s m =
      let fb_size = mul_size fb.pitch fb.height in
      if fb.dbuf_direct_write || fb.backbuffer == 0 then some (fb, (s, m)) else elim flip [
        | some hook ↦ some (record fb { tick_flip = timer_tick }, (s, hook m))
        | none ↦ elim fb.flip_all [
          | true ↦ elim (clean_all fuel fb_size 0 fb.backbuffer s) [
            | none ↦ none
            | some s' ↦ some (
              record fb { flip_all = false; tick_flip = timer_tick },
              (s', memcpy fb.framebuffer fb.backbuffer fb_size m),
            )
          ]
          | false ↦ elim (copy_dirty fuel fb fb_size 0 0 fb.backbuffer s m) [
            | none ↦ none
            | some r ↦ some (record fb { tick_flip = timer_tick }, r)
          ]
        ]
      ]

  -- `fbuf_putc` and `fbuf_puts`: what is drawn on the screen is committed.
  unfoldable pub putc :
      ℕ
      → Option (Memory → Memory)
      → ℕ
      → Fbuf
      → Option Font
      → ℕ
      → ℕ
      → ℕ
      → ℕ
      → ℕ
      → Bool
      → S
      → Memory
      → Option (Fbuf × (S × Memory))
  unfolding commit
  putc fuel flip timer_tick fb none x y c fg bg transparent s m = some (fb, (s, m))
  putc fuel flip timer_tick fb (some font) x y c fg bg transparent s m =
      if leb fb.width x || leb fb.height y
      then some (fb, (s, m))
      else commit fuel flip timer_tick fb s (font.draw x y c fg bg transparent m)

  unfoldable pub puts :
      ℕ
      → Option (Memory → Memory)
      → ℕ
      → Fbuf
      → Option Font
      → ℕ
      → ℕ
      → List ℕ
      → ℕ
      → ℕ
      → Bool
      → S
      → Memory
      → Option (Fbuf × (S × Memory))
  unfolding commit
  puts fuel flip timer_tick fb none x y cs fg bg transparent s m = some (fb, (s, m))
  puts fuel flip timer_tick fb (some font) x y cs fg bg transparent s m =
      if leb fb.width x || leb fb.height y
      then some (fb, (s, m))
      else commit fuel flip timer_tick fb s (puts_stub fb (some font) x y cs fg bg transparent m)

  -- A first page that was not written stops the loop: the size of a page is 0 until one was copied.
  copy_dirty-endless :
      (fuel : ℕ) (fb : Fbuf) (fb_size off back : ℕ) (s : S) (m : Memory)
      → off < fb_size
      → fb_size < 0x1_0000_0000
      → back < 0x1_0000_0000
      → t.get_dirty s back ≡ false
      → copy_dirty fuel fb fb_size off 0 back s m ≡ none
  unfolding copy_dirty
  copy_dirty-endless zero fb fb_size off back s m more small low clean = refl
  copy_dirty-endless (suc fuel) fb fb_size off back s m more small low clean =
      let go : ltb off fb_size ≡ true = ground arith in
      let stay : add_size off 0 ≡ off = omega arith in
      let stay' : add_size back 0 ≡ back = omega arith in
      rw (copy_dirty, go, clean, stay, stay')
        (copy_dirty-endless fuel fb fb_size off back s m more small low clean)

  -- fbuf_commit, on a screen that is not empty, without an accelerated function, with a second buffer
  -- below 2^32 that is not bypassed, and neither asked to copy all of it nor called after its first
  -- page was written, does not end, however many rounds its loop has.
  pub commit-endless :
      (fuel timer_tick : ℕ) (fb : Fbuf) (s : S) (m : Memory)
      → 0 < mul_size fb.pitch fb.height
      → fb.backbuffer ≢ 0
      → fb.backbuffer < 0x1_0000_0000
      → fb.dbuf_direct_write ≡ false
      → fb.flip_all ≡ false
      → t.get_dirty s fb.backbuffer ≡ false
      → commit fuel none timer_tick fb s m ≡ none
  unfolding commit
  commit-endless fuel timer_tick fb s m some_size second low delayed part clean =
      let there : (fb.backbuffer == 0) ≡ false = ground arith in
      let size = mul_size fb.pitch fb.height in
      rw
        (
          commit,
          delayed,
          there,
          part,
          copy_dirty-endless fuel fb size 0 fb.backbuffer s m some_size (omega arith) low clean,
        )
        refl
