-- ===== src/Fs/Memfs.antt =====
-- fs/memfs.c, a file that stands for an area of memory. Offsets and sizes have 64 bits, addresses 32.
pub mod Bounds
mod Tests
use sysx.Base.{
  ℕ, ◌+◌, ◌-◌, ◌%◌, ◌*◌, ◌≤◌, ◌<◌, Bool, Option, none, some, leb, ltb, ◌==◌, ◌!=◌, if◌then◌else◌,
  u64_mod, word_mod, add_size,
}
use sysx.Base.Memory.{Memory}
use sysx.Libc.String.{memcpy}

-- The fields of `vfs_node_t` that the file uses; `rw` is which of the two hook tables the node has.
pub record MemNode : Type 0 where
  pub flags : ℕ
  pub length : ℕ
  pub ptr : ℕ
  pub rw : Bool

-- How many bytes are moved: `offset + size` is taken modulo 2^64.
pub clip : ℕ → ℕ → ℕ → ℕ
clip length offset size =
    if ltb length ((offset + size) % u64_mod)
    then (if leb length offset then 0 else length - offset)
    else size

-- The address of an offset.
abbrev pub address : MemNode → ℕ → ℕ
address node offset = add_size node.ptr (offset % word_mod)

-- `memfs_vfs_read` and `memfs_vfs_write`; `memcpy` takes the size modulo 2^32.
pub vfs_read : MemNode → ℕ → ℕ → ℕ → Memory → ℕ × Memory
unfolding clip
vfs_read node offset size buffer m =
    let n = clip node.length offset size in
    (n, if n == 0 then m else memcpy buffer (address node offset) (n % word_mod) m)

pub vfs_write : MemNode → ℕ → ℕ → ℕ → Memory → ℕ × Memory
unfolding clip
vfs_write node offset size buffer m =
    let n = clip node.length offset size in
    (n, if n == 0 then m else memcpy (address node offset) buffer (n % word_mod) m)

-- `memfs_mount` on a given node, or on a new one: only a plain file can become an area of memory.
pub mount : Option MemNode → ℕ → ℕ → Bool → Option MemNode
mount none ptr size rw = some (record { flags = 1; length = size; ptr = ptr; rw = rw })
mount (some node) ptr size rw =
    if node.flags != 1
    then none
    else some (record { flags = node.flags; length = size; ptr = ptr; rw = rw })
