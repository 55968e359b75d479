-- ===== src/Mm/Kheap.antt =====
-- mm/kheap.c: the memory behind the allocator of the kernel, which asks for more of it, or gives some
-- back, through `kmorecore`. The state is that of the address spaces and of the page frames; `base`
-- and `max_size` are the bounds from the linker script, and frames and the smallest pages have 4 KB.
pub mod Grow
mod Tests
use sysx.Base.{
  ℕ, zero, suc, ◌+◌, ◌-◌, ◌*◌, ◌/◌, ◌%◌, ◌^◌, Bool, true, false, ◌||◌, Option, none, some, ltb,
  ◌==◌, if◌then◌else◌, add_size, sub_size, mul_size, size_max,
}
use sysx.Mm.Pmm.{Pmm, alloc_free, free}
use sysx.Mm.Vmm.{Target}

-- `kheap_size`, the address spaces and the page frames.
pub record Kheap (S : Type 0) : Type 0 where
  pub size : ℕ
  pub spaces : S
  pub pmm : Pmm

-- `VMM_FLAGS_PRESENT | VMM_FLAGS_RW | VMM_FLAGS_GLOBAL | VMM_FLAGS_CACHE`
abbrev pub heap_flags : ℕ
heap_flags = 1 + 2 + 8 + 16

-- `(size + framesz - 1) / framesz`
abbrev pub frames_of : ℕ → ℕ
frames_of size = (size + 4095) % 2 ^ 32 / 4096

-- `(intptr_t)size + incr < 0`, where `incr` is given as the word of 32 bits that it is.
abbrev pub below_zero : ℕ → ℕ → Bool
below_zero size incr =
    ltb
      (size
        + (if ltb size (2 ^ 31) then 2 ^ 32 else 0)
        + (incr + (if ltb incr (2 ^ 31) then 2 ^ 32 else 0)))
      (2 ^ 33)

module _ {S : Type 0} (t : Target S) (vmm_current : ℕ) where
  -- The loop that expands the heap, with `left` frames to go: whether it found them all. `none` is a
  -- search for a frame that does not end.
  pub expand : ℕ → ℕ → S → Pmm → Option (Bool × S × Pmm)
  expand zero vaddr s p = some (true, s, p)
  expand (suc left) vaddr s p = elim (alloc_free p 1) [
    | none ↦ none
    | some (frame, q) ↦ elim (frame == size_max) [
      | true ↦ some (false, s, q)
      | false ↦
          expand left (add_size vaddr 4096)
            (t.pgmap vmm_current (mul_size frame 4096) vaddr 0 heap_flags s) q
    ]
  ]

  -- The loop that trims it from the last page on; pages that are not mapped are passed over.
  pub trim : ℕ → ℕ → S → Pmm → S × Pmm
  trim zero vaddr s p = (s, p)
  trim (suc left) vaddr s p =
      let paddr = t.get_paddr s vmm_current vaddr in
      trim left (sub_size vaddr 4096) (if paddr == 0 then s else t.pgunmap vmm_current vaddr 0 s)
        (if paddr == 0 then p else free p (paddr / 4096))

module _ {S : Type 0} (t : Target S) (vmm_current base max_size : ℕ) where
  -- `kmorecore`; (void*)UINTPTR_MAX is (size_t)-1.
  pub kmorecore : ℕ → Kheap S → Option (ℕ × Kheap S)
  unfolding expand trim
  kmorecore incr k =
      let size = add_size k.size incr in
      let prev_brk = add_size base k.size in
      let old_frames = frames_of k.size in
      let new_frames = frames_of size in
      if below_zero k.size incr || ltb max_size size
      then some (size_max, k)
      else if incr == 0
      then some (prev_brk, k)
      else if ltb old_frames new_frames
      then elim (expand t vmm_current (new_frames - old_frames)
          (add_size base (mul_size old_frames 4096)) k.spaces k.pmm) [
            | none ↦ none
            | some (all, s, p) ↦
                some (
                  (if all then prev_brk else size_max),
                  record { size = size; spaces = s; pmm = p },
                )
          ]
      else (let (s, p) =
            trim t vmm_current (old_frames - new_frames)
              (add_size base (mul_size (sub_size old_frames 1) 4096)) k.spaces k.pmm in
          some (prev_brk, record { size = size; spaces = s; pmm = p }))
