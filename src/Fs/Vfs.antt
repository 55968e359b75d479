-- ===== src/Fs/Vfs.antt =====
-- fs/vfs.c. A node is known by its address, 0 is the null pointer, and `S` is the state that the
-- drivers behind the hooks keep, the caller's buffers among it.
pub mod Symlink
pub mod Walk
mod Tests
use sysx.Base.{
  ℕ, zero, suc, ◌+◌, ◌-◌, Bool, true, false, not, ◌&&◌, ◌||◌, Option, none, some, List, [], ◌∷◌,
  bit_and, leb, ltb, ◌==◌, ◌!=◌, if◌then◌else◌, length, take, get_or,
}
use sysx.Helpers.Path.{path_traverse}

-- `vfs_hook_t`: node and arguments to result; a field is `none` for a null function pointer.
pub record Hook (S : Type 0) : Type 0 where
  pub read : Option (ℕ → ℕ → ℕ → ℕ → S → ℕ × S)
  pub write : Option (ℕ → ℕ → ℕ → ℕ → S → ℕ × S)
  pub on_open : Option (ℕ → Bool → Bool → S → Bool × S)
  pub on_close : Option (ℕ → S → S)
  pub readdir : Option (ℕ → ℕ → S → ℕ × S)
  pub finddir : Option (ℕ → List ℕ → S → ℕ × S)
  pub create : Option (ℕ → List ℕ → ℕ → S → ℕ × S)
  pub mkdir : Option (ℕ → List ℕ → ℕ → S → ℕ × S)
  pub remove : Option (ℕ → S → Bool × S)
  pub ioctl : Option (ℕ → ℕ → ℕ → S → S)

-- The fields of `vfs_node_t` that vfs.c reads; `target` is `link.target`.
pub record Node (S : Type 0) : Type 0 where
  pub flags : ℕ
  pub hook : Hook S
  pub target : ℕ

abbrev pub vfs_file : ℕ
vfs_file = 1

abbrev pub vfs_directory : ℕ
vfs_directory = 2

abbrev pub vfs_mountpoint : ℕ
vfs_mountpoint = 18

abbrev pub vfs_symlink : ℕ
vfs_symlink = 32

module _ {S : Type 0} (nodes : ℕ → Node S) where
  abbrev pub is_symlink : ℕ → Bool
  is_symlink node = bit_and (nodes node).flags vfs_symlink != 0

  -- `vfs_traverse_symlink`. `none`: out of fuel.
  pub traverse_symlink : ℕ → ℕ → Option ℕ
  traverse_symlink zero node = none
  traverse_symlink (suc fuel) node =
      let rest = traverse_symlink fuel (nodes node).target in
      if node != 0 && is_symlink node
      then (if (nodes node).target == node then some node else rest)
      else some node

  -- `node->flags == VFS_DIRECTORY || node->flags == VFS_MOUNTPOINT`
  abbrev is_directory : ℕ → Bool
  is_directory node =
      ((nodes node).flags == vfs_directory) || ((nodes node).flags == vfs_mountpoint)

  abbrev is_file : ℕ → Bool
  is_file node = bit_and (nodes node).flags vfs_file != 0

  abbrev any_node : ℕ → Bool
  any_node node = true

  -- Resolves links, then calls the hook if the node qualifies and has one.
  pub dispatch :
      {F R : Type 0} → ℕ → ℕ → (ℕ → Bool) → (Hook S → Option F) → (F → ℕ → R) → R → Option R
  dispatch fuel node test field call otherwise = elim (traverse_symlink fuel node) [
    | none ↦ none
    | some n ↦ some (
        if n != 0 && test n
        then (elim (field (nodes n).hook) [ none ↦ otherwise | some f ↦ call f n ])
        else otherwise)
  ]

  pub read : ℕ → ℕ → ℕ → ℕ → ℕ → S → Option (ℕ × S)
  unfolding dispatch
  read fuel node offset size buffer s =
      dispatch fuel node is_file (λ h. h.read) (λ f n. f n offset size buffer s) (0, s)

  pub write : ℕ → ℕ → ℕ → ℕ → ℕ → S → Option (ℕ × S)
  unfolding dispatch
  write fuel node offset size buffer s =
      dispatch fuel node is_file (λ h. h.write) (λ f n. f n offset size buffer s) (0, s)

  pub open_node : ℕ → ℕ → Bool → Bool → S → Option (Bool × S)
  unfolding dispatch
  open_node fuel node read write s =
      dispatch fuel node any_node (λ h. h.on_open) (λ f n. f n read write s) (true, s)

  pub close_node : ℕ → ℕ → S → Option S
  unfolding dispatch
  close_node fuel node s = dispatch fuel node any_node (λ h. h.on_close) (λ f n. f n s) s

  pub readdir : ℕ → ℕ → ℕ → S → Option (ℕ × S)
  unfolding dispatch
  readdir fuel node idx s =
      dispatch fuel node is_directory (λ h. h.readdir) (λ f n. f n idx s) (0, s)

  pub finddir : ℕ → ℕ → List ℕ → S → Option (ℕ × S)
  unfolding dispatch
  finddir fuel node name s =
      dispatch fuel node is_directory (λ h. h.finddir) (λ f n. f n name s) (0, s)

  pub create : ℕ → ℕ → List ℕ → ℕ → S → Option (ℕ × S)
  unfolding dispatch
  create fuel node name mask s =
      dispatch fuel node is_directory (λ h. h.create) (λ f n. f n name mask s) (0, s)

  pub mkdir : ℕ → ℕ → List ℕ → ℕ → S → Option (ℕ × S)
  unfolding dispatch
  mkdir fuel node name mask s =
      dispatch fuel node is_directory (λ h. h.mkdir) (λ f n. f n name mask s) (0, s)

  pub remove : ℕ → ℕ → S → Option (Bool × S)
  unfolding dispatch
  remove fuel node s = dispatch fuel node any_node (λ h. h.remove) (λ f n. f n s) (false, s)

  pub ioctl : ℕ → ℕ → ℕ → ℕ → S → Option S
  unfolding dispatch
  ioctl fuel node request buf s =
      dispatch fuel node any_node (λ h. h.ioctl) (λ f n. f n request buf s) s

  -- What a walk along a path comes to: a node or null, an element that does not fit its buffer of
  -- 256 bytes, or a chain of links that outlasts the fuel for links.
  pub data Walked : Type 0 where
    reached : ℕ → S → Walked
    name_too_long : Walked
    endless_link : Walked
    out_of_fuel : Walked

  -- The loop of `vfs_traverse_path`, on fuel for its rounds and fuel for the links of each.
  pub walk : ℕ → ℕ → List ℕ → ℕ → S → Walked
  walk zero links path node s = out_of_fuel
  walk (suc fuel) links path node s =
      let (len, rest) = path_traverse path in
      let skip = walk fuel links rest node s in
      if node == 0 || length path == 0
      then reached node s
      else if len == 0 || (len == 1 && get_or path 0 0 == b'.')
      then skip
      else if ltb 255 len
      then name_too_long
      else (elim (finddir links node (take len path) s) [
        | none ↦ endless_link
        | some (next, s') ↦ walk fuel links rest next s'
      ])

  -- Every round takes a character off the path. A null path is `none`; `vfs_root` and the success of
  -- the buffer's allocation are arguments, and `start` is 0 for a walk from the root.
  pub traverse_path : ℕ → ℕ → Bool → ℕ → Option (List ℕ) → S → Walked
  traverse_path links vfs_root allocated start none s = reached 0 s
  traverse_path links vfs_root allocated start (some path) s =
      if start == 0 && get_or path 0 0 != b'/'
      then reached 0 s
      else if not allocated
      then reached 0 s
      else walk (length path + 1) links path (if start == 0 then vfs_root else start) s

-- The ring of 1024 directory entries: the entry that is handed out, and the next index.
pub alloc_dirent : ℕ → ℕ × ℕ
alloc_dirent idx = (idx, if idx + 1 == 1024 then 0 else idx + 1)
