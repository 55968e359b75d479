-- ===== src/Helpers/Path/Tests.antt =====
-- path.c on a path with an empty element.
use sysx.Base.{◌≡◌, refl, [], ◌∷◌}
use sysx.Helpers.Path.{path_traverse}

path_traverse_runs : path_traverse (b'u' ∷ b's' ∷ b'/' ∷ b'/' ∷ b'x' ∷ []) ≡ (2, b'/' ∷ b'x' ∷ [])
unfolding path_traverse
path_traverse_runs = refl
