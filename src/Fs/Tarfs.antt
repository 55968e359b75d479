-- ===== src/Fs/Tarfs.antt =====
-- fs/tarfs.c: the files of an archive in memory. A node is known by its inode, the index in the
-- hierarchy, and 0 is the root. Allocations are taken to succeed.
pub mod Parse
pub mod Lookup
mod Tests
use sysx.Base.{
  ℕ, zero, suc, ◌+◌, ◌-◌, ◌*◌, ◌/◌, ◌%◌, Bool, true, false, ◌&&◌, ◌||◌, Option, none, some, List,
  [], ◌∷◌, ◌++◌, leb, ltb, ◌==◌, ◌!=◌, if◌then◌else◌, length, get_or, take, add_size, word_mod,
  u64_mod,
}
use sysx.Base.Memory.{Memory}
use sysx.Helpers.Path.{path_traverse}
use sysx.Libc.String.{memcpy}
use sysx.Libc.Stdlib.{strtoull, strtoul, value_of}

-- The fields of `tar_header_t` that the code reads, each as the text before its NUL, and whether the
-- signature is that of ustar.
pub record Header : Type 0 where
  pub name : List ℕ
  pub uid : List ℕ
  pub gid : List ℕ
  pub size : List ℕ
  pub mtime : List ℕ
  pub kind : ℕ
  pub is_ustar : Bool
  pub name_prefix : List ℕ

-- A node with its entry of the hierarchy: `bytes` is the address of its bytes, `parent` the inode of its
-- parent, `none` for the root. Where the code leaves `data` unset, no read looks at it: it is `none`.
pub record TarNode : Type 0 where
  pub name : List ℕ
  pub flags : ℕ
  pub length : ℕ
  pub uid : ℕ
  pub gid : ℕ
  pub mtime : ℕ
  pub bytes : Option ℕ
  pub parent : Option ℕ

abbrev pub root : TarNode
root = record {
  name = [];
  flags = 18;
  length = 0;
  uid = 0;
  gid = 0;
  mtime = 0;
  bytes = none;
  parent = none;
}

-- The `switch` on the type of a header.
pub flags_of : ℕ → ℕ
flags_of kind =
    if kind == b'1' || kind == b'2'
    then 32
    else if kind == b'3'
    then 3
    else if kind == b'4'
    then 7
    else if kind == b'5'
    then 2
    else if kind == b'6'
    then 15
    else 1

pub same_name : List ℕ → List ℕ → Bool
same_name [] [] = true
same_name [] (d ∷ ds) = false
same_name (c ∷ cs) [] = false
same_name (c ∷ cs) (d ∷ ds) = c == d && same_name cs ds

abbrev pub is_parent : Option ℕ → ℕ → Bool
is_parent none p = false
is_parent (some q) p = q == p

-- The first of these nodes, numbered from `i` on, that is a child of `parent` with the name.
pub find_child : List TarNode → ℕ → ℕ → List ℕ → Option ℕ
unfolding same_name
find_child [] i parent name = none
find_child (n ∷ ns) i parent name =
    let rest = find_child ns (i + 1) parent name in
    if is_parent n.parent parent && same_name n.name name then some i else rest

abbrev pub drop : ℕ → List TarNode → List TarNode
drop zero ns = ns
drop (suc k) [] = []
drop (suc k) (n ∷ ns) = drop k ns

-- The loop over the path of a new node: its name and its parent. A directory that is missing is
-- passed over.
pub place : ℕ → List TarNode → List ℕ → ℕ → Option (List ℕ × ℕ)
unfolding find_child
place zero ns path parent = none
place (suc fuel) ns path parent =
    let (len, rest) = path_traverse path in
    if length rest == 0
    then some (take len path, parent)
    else (elim (find_child (drop 1 ns) 1 parent (take len path)) [
      | none ↦ place fuel ns rest parent
      | some i ↦ place fuel ns rest i
    ])

-- The full path: the prefix of a ustar header and the name, with nothing between them.
abbrev pub full_name : Header → List ℕ
full_name h = (if h.is_ustar then h.name_prefix else []) ++ h.name

-- The node for a header at an address.
pub node_of : Header → ℕ → List ℕ × ℕ → TarNode
unfolding flags_of
node_of h at (name, parent) =
    let flags = flags_of h.kind in
    let len = value_of (strtoull 8 h.size) in
    record {
      name = name;
      flags = flags;
      length = len;
      uid = strtoul 8 h.uid;
      gid = strtoul 8 h.gid;
      mtime = strtoul 8 h.mtime;
      bytes = if flags == 1 && len != 0 then some (add_size at 512) else none;
      parent = some parent;
    }

-- How far the next header is behind a header: 512 bytes and the file in units of 512.
abbrev pub stride : Header → ℕ
stride h = (512 + (value_of (strtoull 8 h.size) % word_mod + 511) % word_mod / 512 * 512) % word_mod

abbrev pub is_empty : Header → Bool
is_empty h = length h.name == 0 && length h.size == 0

-- The loop of `tar_init` over the headers from an address on; `stop` is `buffer + size`.
pub parse : ℕ → (ℕ → Header) → ℕ → ℕ → List TarNode → Option (List TarNode)
unfolding place node_of
parse zero headers stop at ns = none
parse (suc fuel) headers stop at ns =
    let h = headers at in
    if leb stop at
    then some ns
    else if is_empty h
    then parse fuel headers stop (add_size at 512) ns
    else (elim (place (length (full_name h) + 1) ns (full_name h) 0) [
      | none ↦ none
      | some p ↦ parse fuel headers stop (add_size at (stride h)) (ns ++ (node_of h at p ∷ []))
    ])

-- `tar_init`: a header takes 512 bytes at least.
pub tar_init : (ℕ → Header) → ℕ → ℕ → Option (List TarNode)
unfolding parse
tar_init headers buffer size =
    parse (size / 512 + 2) headers (add_size buffer size) buffer (root ∷ [])

-- `tar_vfs_read`
pub vfs_read : List TarNode → ℕ → ℕ → ℕ → ℕ → Memory → ℕ × Memory
vfs_read ns inode offset size buffer m =
    let n = get_or ns inode root in
    let count = if ltb n.length ((offset + size) % u64_mod) then n.length - offset else size in
    elim n.bytes [
      | none ↦ (0, m)
      | some start ↦
          if leb n.length offset
          then (0, m)
          else (count, memcpy buffer (add_size start (offset % word_mod)) (count % word_mod) m)
    ]

-- The loop of `tar_vfs_readdir`: the child with number `idx` among these nodes.
pub nth_child : List TarNode → ℕ → ℕ → ℕ → Option ℕ
nth_child [] i parent idx = none
nth_child (n ∷ ns) i parent idx =
    let same = nth_child ns (i + 1) parent idx in
    let next = nth_child ns (i + 1) parent (idx - 1) in
    if is_parent n.parent parent then (if idx == 0 then some i else next) else same

-- `tar_vfs_readdir`, as the inode of the entry; children stand behind their parent.
pub vfs_readdir : List TarNode → ℕ → ℕ → Option ℕ
unfolding nth_child
vfs_readdir ns inode idx = nth_child (drop (inode + 1) ns) (inode + 1) inode idx

pub vfs_finddir : List TarNode → ℕ → List ℕ → Option ℕ
unfolding find_child
vfs_finddir ns inode name = find_child (drop (inode + 1) ns) (inode + 1) inode name
