-- ===== src/Hal/Devtree/Tests.antt =====
-- A root at 1 with the child 2, and a new node 3.
use sysx.Base.{◌≡◌, refl, some, [], ◌∷◌, ◌==◌, if◌then◌else◌}
use sysx.Helpers.Path.{path_traverse}
use sysx.Hal.Devtree.{Devices, traverse_path}

abbrev devices : Devices
devices n =
    if n == 1
    then record { name = []; parent = 1; first_child = 2; next_sibling = 0 }
    else if n == 2
    then record { name = b'p' ∷ b'c' ∷ []; parent = 1; first_child = 0; next_sibling = 0 }
    else record { name = b'x' ∷ []; parent = 0; first_child = 0; next_sibling = 0 }

-- A part of a name is enough to find the node.
finds_pc : traverse_path 3 1 devices 0 (b'p' ∷ []) ≡ some 2
unfolding traverse_path path_traverse
finds_pc = refl
