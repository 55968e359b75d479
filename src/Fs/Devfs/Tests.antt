-- ===== src/Fs/Devfs/Tests.antt =====
-- A root at 1 with the devices 2 and 3, and a new one at 4.
use sysx.Base.{ℕ, ◌≡◌, refl, false, some, List, [], ◌∷◌, arith, ◌==◌, if◌then◌else◌}
use sysx.Fs.Devfs.{Functions, DevNode, Nodes, Devfs, create, is_valid, vfs_readdir, vfs_finddir}
use sysx.Fs.Devfs.Listing.{IsList, create-IsList}

abbrev node_at : List ℕ → ℕ → ℕ → DevNode
node_at name hook link = record {
  name = name;
  flags = 3;
  inode = 0;
  length = 0;
  hook = hook;
  link = link;
}

abbrev nodes : Nodes
nodes n =
    if n == 1
    then node_at [] 99 2
    else if n == 2
    then node_at (b'a' ∷ []) 50 3
    else node_at (b'b' ∷ []) 50 0

abbrev functions : Functions
functions = record { read = 7; write = 0; on_open = 0; on_close = 0; ioctl = 0 }

abbrev devfs : Devfs
devfs = record { nodes = nodes; hooks = λ h. functions }

lists : (vfs_readdir nodes 1 1 ≡ some (b'b' ∷ [], 0)) × (vfs_finddir 3 nodes 1 (b'b' ∷ []) ≡ some 3)
unfolding vfs_readdir vfs_finddir
lists = (refl, refl)

create-IsList_example :
    (r : Devfs) × (create 3 99 1 4 60 functions false 0 (b'c' ∷ []) devfs ≡ some (4, r))
    × IsList r.nodes 1 (2 ∷ 3 ∷ 4 ∷ [])
unfolding is_valid
create-IsList_example =
    create-IsList 3 99 1 4 60 functions false 0 (b'c' ∷ []) devfs (2 ∷ 3 ∷ []) refl
      (refl, omega arith, (refl, omega arith, refl)) (refl, (refl, (refl, tt))) (omega arith)
      (omega arith) (omega arith)
