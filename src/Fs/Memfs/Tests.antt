-- ===== src/Fs/Memfs/Tests.antt =====
-- A file of ten bytes at 1000.
use sysx.Base.{ℕ, ◌+◌, ◌-◌, ◌≡◌, inl, true, arith, leb, ltb, ◌&&◌, if◌then◌else◌}
use sysx.Base.Memory.{Memory}
use sysx.Fs.Memfs.{MemNode, vfs_read}
use sysx.Fs.Memfs.Bounds.{vfs_read-copies}

abbrev memory : Memory
memory a = a

abbrev file : MemNode
file = record { flags = 1; length = 10; ptr = 1000; rw = true }

vfs_read-copies_example :
    ((vfs_read file 7 5 16 memory).0 ≡ 3)
    × ((a : ℕ)
        → (vfs_read file 7 5 16 memory).1 a
          ≡ (if leb 16 a && ltb a (16 + 3) then memory (1000 + 7 + (a - 16)) else memory a))
vfs_read-copies_example =
    vfs_read-copies file 7 5 16 memory (omega arith) (omega arith) (omega arith) (inl (omega arith))
