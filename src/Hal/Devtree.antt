-- ===== src/Hal/Devtree.antt =====
-- hal/devtree.c, the tree of devices. A node is known by its address, 0 is the null pointer.
pub mod Children
mod Tests
use sysx.Base.{
  ℕ, zero, suc, ◌+◌, Bool, true, false, ◌&&◌, ◌||◌, Option, none, some, List, [], ◌∷◌, ◌==◌, ◌!=◌,
  if◌then◌else◌, length, get_or,
}
use sysx.Base.Memory.{update}
use sysx.Helpers.Path.{path_traverse}

-- The fields of `devtree_t` that the file uses; a name is its characters before the NUL.
pub record Device : Type 0 where
  pub name : List ℕ
  pub parent : ℕ
  pub first_child : ℕ
  pub next_sibling : ℕ

abbrev pub Devices : Type 0
Devices = ℕ → Device

pub add_child : ℕ → ℕ → Devices → Devices
add_child parent child m0 =
    let m1 = update m0 child (record (m0 child) { next_sibling = (m0 parent).first_child }) in
    let m2 = update m1 parent (record (m1 parent) { first_child = child }) in
    update m2 child (record (m2 child) { parent = parent })

pub add_sibling : ℕ → ℕ → Devices → Devices
add_sibling existing new m0 =
    let m1 = update m0 new (record (m0 new) { next_sibling = (m0 existing).next_sibling }) in
    let m2 = update m1 existing (record (m1 existing) { next_sibling = new }) in
    update m2 new (record (m2 new) { parent = (m2 existing).parent })

-- `!strncmp(a, b, n)`
pub same_prefix : ℕ → List ℕ → List ℕ → Bool
same_prefix zero a b = true
same_prefix (suc n) [] [] = true
same_prefix (suc n) [] (d ∷ ds) = false
same_prefix (suc n) (c ∷ cs) [] = false
same_prefix (suc n) (c ∷ cs) (d ∷ ds) = c == d && same_prefix n cs ds

-- The loop over the children: the first whose name begins with the element, or null. `none`: out of
-- fuel.
pub find_child : ℕ → Devices → ℕ → List ℕ → ℕ → Option ℕ
unfolding same_prefix
find_child zero m node e len = none
find_child (suc fuel) m node e len =
    let rest = find_child fuel m (m node).next_sibling e len in
    if node == 0 then some 0 else if same_prefix len (m node).name e then some node else rest

-- `devtree_traverse_path`, on fuel for the path and for the children of each node.
pub traverse : ℕ → ℕ → Devices → List ℕ → ℕ → Option ℕ
unfolding find_child
traverse zero children m path node = none
traverse (suc fuel) children m path node =
    let (len, rest) = path_traverse path in
    if length path == 0
    then some node
    else if len == 0 || (len == 1 && get_or path 0 0 == b'.')
    then traverse fuel children m rest node
    else if same_prefix len path (b'.' ∷ b'.' ∷ [])
    then traverse fuel children m rest (m node).parent
    else (elim (find_child children m (m node).first_child path len) [
      | none ↦ none
      | some next ↦ if next == 0 then some 0 else traverse fuel children m rest next
    ])

pub traverse_path : ℕ → ℕ → Devices → ℕ → List ℕ → Option ℕ
unfolding traverse
traverse_path children root m node path =
    traverse (length path + 1) children m path (if node != 0 then node else root)
