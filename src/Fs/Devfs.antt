-- ===== src/Fs/Devfs.antt =====
-- fs/devfs.c: the devices behind a root node, a list linked by `link.ptr`. A node, a hook table and a
-- function are known by their addresses, and 0 is the null pointer. Walks are on fuel.
pub mod Listing
mod Tests
use sysx.Base.{
  ℕ, zero, suc, ◌+◌, ◌-◌, ◌%◌, Bool, true, false, not, ◌&&◌, ◌||◌, Option, none, some, List, [],
  ◌∷◌, ◌==◌, ◌!=◌, if◌then◌else◌, u64_mod,
}
use sysx.Base.Memory.{update}

-- The functions of `vfs_hook_t` that a device has.
pub record Functions : Type 0 where
  pub read : ℕ
  pub write : ℕ
  pub on_open : ℕ
  pub on_close : ℕ
  pub ioctl : ℕ

-- The fields of `vfs_node_t` that devfs.c uses.
pub record DevNode : Type 0 where
  pub name : List ℕ
  pub flags : ℕ
  pub inode : ℕ
  pub length : ℕ
  pub hook : ℕ
  pub link : ℕ

abbrev pub Nodes : Type 0
Nodes = ℕ → DevNode

pub record Devfs : Type 0 where
  pub nodes : Nodes
  pub hooks : ℕ → Functions

abbrev pub set_link : ℕ → ℕ → Nodes → Nodes
set_link a l m = update m a (record (m a) { link = l })

pub same_name : List ℕ → List ℕ → Bool
same_name [] [] = true
same_name [] (d ∷ ds) = false
same_name (c ∷ cs) [] = false
same_name (c ∷ cs) (d ∷ ds) = c == d && same_name cs ds

-- The loop of `devfs_vfs_readdir`: `idx` nodes further on, or null.
pub nth_node : Nodes → ℕ → ℕ → ℕ
nth_node m zero node = node
nth_node m (suc idx) node = let rest = nth_node m idx (m node).link in if node == 0 then 0 else rest

-- `devfs_vfs_readdir`: the name and the inode of the entry.
pub vfs_readdir : Nodes → ℕ → ℕ → Option (List ℕ × ℕ)
unfolding nth_node
vfs_readdir m node idx =
    let n = nth_node m idx (m node).link in if n == 0 then none else some ((m n).name, (m n).inode)

-- The loop of `devfs_vfs_finddir`. `none`: out of fuel.
pub find_node : ℕ → Nodes → ℕ → List ℕ → Option ℕ
unfolding same_name
find_node zero m node name = none
find_node (suc fuel) m node name =
    let rest = find_node fuel m (m node).link name in
    if node == 0 || same_name (m node).name name then some node else rest

pub vfs_finddir : ℕ → Nodes → ℕ → List ℕ → Option ℕ
unfolding find_node
vfs_finddir fuel m node name = find_node fuel m (m node).link name

-- `devfs_mount`, for a given node or the address of a new one, 0 if its allocation fails.
pub mount : ℕ → ℕ → ℕ → Nodes → Option ℕ × Nodes
mount hook_root root fresh m =
    let target = if root == 0 then fresh else root in
    if target == 0
    then (none, m)
    else if root != 0 && (m root).flags != 2 && (m root).flags != 18
    then (none, m)
    else (
      some target,
      update m target (record (m target) { flags = 18; link = 0; hook = hook_root }),
    )

-- `vfs_is_valid`
pub is_valid : ℕ → ℕ → Nodes → Bool
is_valid hook_root root m = root != 0 && (m root).hook == hook_root

abbrev pub same_functions : Functions → Functions → Bool
same_functions a b =
    a.read == b.read
    && a.write == b.write
    && a.on_open == b.on_open
    && a.on_close == b.on_close
    && a.ioctl == b.ioctl

-- The loop of `devfs_create`: the last node, and the first hook table with the same functions.
pub last_from : ℕ → Devfs → Functions → ℕ → ℕ → Option (ℕ × ℕ)
last_from zero s f node hook = none
last_from (suc fuel) s f node hook =
    let hook' =
      if hook == 0 && same_functions (s.hooks (s.nodes node).hook) f
      then (s.nodes node).hook
      else hook in
    let rest = last_from fuel s f (s.nodes node).link hook' in
    if (s.nodes node).link == 0 then some (node, hook') else rest

-- The end of `devfs_create`: the new node behind the last one, or behind the root.
pub append : ℕ → ℕ → ℕ → ℕ → Functions → Bool → ℕ → List ℕ → Devfs → Devfs
append root last node hook f block size name s =
    let n : DevNode = record {
      name = name;
      flags = if block then 7 else 3;
      inode = if last == 0 then 0 else ((s.nodes last).inode + 1) % u64_mod;
      length = size;
      hook = hook;
      link = 0;
    } in
    record s { nodes = set_link (if last == 0 then root else last) node (update s.nodes node n) }

-- The part of `devfs_create` behind the walk, for the last node, or 0 if there is none, and a hook table
-- with the same functions, or 0.
pub create_behind : ℕ → ℕ → ℕ → Functions → Bool → ℕ → List ℕ → Devfs → ℕ → ℕ → ℕ × Devfs
unfolding append
create_behind root node fresh_hook f block size name s last hook =
    if node == 0
    then (0, s)
    else if hook == 0
    then (if fresh_hook == 0 then (0, s) else (
      node,
      append root last node fresh_hook f block size name
          (record s { hooks = update s.hooks fresh_hook f }),
    ))
    else (node, append root last node hook f block size name s)

-- `devfs_create`, with the addresses that the two allocations give, 0 where they fail, and the name
-- that the format makes. The outer `none`: out of fuel.
pub create : ℕ → ℕ → ℕ → ℕ → ℕ → Functions → Bool → ℕ → List ℕ → Devfs → Option (ℕ × Devfs)
unfolding last_from create_behind is_valid
create fuel hook_root root node fresh_hook f block size name s =
    if not (is_valid hook_root root s.nodes)
    then some (0, s)
    else if (s.nodes root).link == 0
    then some (create_behind root node fresh_hook f block size name s 0 0)
    else (elim (last_from fuel s f (s.nodes root).link 0) [
      | none ↦ none
      | some (last, hook) ↦ some (create_behind root node fresh_hook f block size name s last hook)
    ])

-- The loop of `devfs_remove`: the node before the one to remove, or the last one.
pub find_before : ℕ → Nodes → ℕ → ℕ → Option ℕ
find_before zero m root node = none
find_before (suc fuel) m root node =
    let rest = find_before fuel m (m root).link node in
    if (m root).link != 0 && (m root).link != node then rest else some root

-- `devfs_remove`: the condition of the code is that the node was not found.
pub remove : ℕ → ℕ → ℕ → ℕ → Nodes → Option Nodes
unfolding find_before is_valid
remove fuel hook_root root node m =
    if not (is_valid hook_root root m) then some m else (elim (find_before fuel m root node) [
      | none ↦ none
      | some r ↦ some (if (m r).link != node then set_link r (m node).link m else m)
    ])
