-- ===== src/Fs/Memfs/Bounds.antt =====
-- Which bytes a memory file gives and takes.
use sysx.Base.{
  ℕ, ◌+◌, ◌-◌, ◌%◌, ◌≤◌, ◌<◌, ◌≡◌, leb, ltb, ◌==◌, ◌&&◌, if◌then◌else◌, arith, u64_mod, word_mod,
  min, ◌⊎◌, inl, inr, Bool-cases,
}
use sysx.Base.Memory.{Memory}
use sysx.Libc.String.{memcpy}
use sysx.Libc.String.Move.{memcpy_lem}
use sysx.Fs.Memfs.{MemNode, address, clip, vfs_read}

moved :
    (node : MemNode) (offset n buffer : ℕ) (m : Memory) (a : ℕ)
    → n ≤ node.length - offset
    → node.ptr + node.length ≤ word_mod
    → buffer + n ≤ word_mod
    → n < word_mod
    → (buffer + n ≤ node.ptr) ⊎ (node.ptr + node.length ≤ buffer)
    → (if n == 0 then m else memcpy buffer (address node offset) (n % word_mod) m) a
      ≡ (if leb buffer a && ltb a (buffer + n) then m (node.ptr + offset + (a - buffer)) else m a)
moved node offset n buffer m a within area room small apart = elim (Bool-cases (n == 0)) [
  | inl none_left ↦ rw none_left (ground arith)
  | inr some_left ↦
      let at : address node offset ≡ node.ptr + offset = ground arith in
      let size : n % word_mod ≡ n = omega arith in
      rw (some_left, at, size)
        (memcpy_lem buffer (node.ptr + offset) n m room (ground arith) (order (ground arith) apart)
          a)
]
  where
    order :
        0 < n
        → (buffer + n ≤ node.ptr) ⊎ (node.ptr + node.length ≤ buffer)
        → (buffer < node.ptr + offset) ⊎ (node.ptr + offset + n ≤ buffer)
    order pos (inl before) = inl (omega arith)
    order pos (inr behind) = inr (omega arith)

-- Unless the end of the request wraps round, a read moves what the request and the file have in
-- common: that many bytes of the file from the offset on are in the buffer, and all else is as before,
-- for an area and a buffer that do not overlap.
pub vfs_read-copies :
    (node : MemNode) (offset size buffer : ℕ) (m : Memory)
    → offset + size < u64_mod
    → node.ptr + node.length ≤ word_mod
    → buffer + size ≤ word_mod
    → (buffer + size ≤ node.ptr) ⊎ (node.ptr + node.length ≤ buffer)
    → let n = min size (node.length - offset) in
      ((vfs_read node offset size buffer m).0 ≡ n)
      × ((a : ℕ)
          → (vfs_read node offset size buffer m).1 a ≡ (
              if leb buffer a && ltb a (buffer + n)
              then m (node.ptr + offset + (a - buffer))
              else m a))
unfolding vfs_read clip
vfs_read-copies node offset size buffer m fits area room apart =
    let n = min size (node.length - offset) in
    let count : clip node.length offset size ≡ n = unfold clip in ground arith in
    (
      count,
      λ a. rw count (
          moved node offset n buffer m a (omega arith) area (omega arith) (omega arith)
            (apart' apart)),
    )
  where
    apart' :
        (buffer + size ≤ node.ptr) ⊎ (node.ptr + node.length ≤ buffer)
        → (buffer + min size (node.length - offset) ≤ node.ptr) ⊎ (node.ptr + node.length ≤ buffer)
    apart' (inl before) = inl (omega arith)
    apart' (inr behind) = inr behind

-- A request that begins at or past the end of the file, and whose own end wraps round 2^64 to
-- within the file, is not clipped.
pub clip-wraps :
    (length offset size : ℕ)
    → offset < u64_mod
    → size < u64_mod
    → u64_mod ≤ offset + size
    → offset + size - u64_mod ≤ length
    → length ≤ offset
    → clip length offset size ≡ size
unfolding clip
clip-wraps length offset size ho hs wraps small past = ground arith
