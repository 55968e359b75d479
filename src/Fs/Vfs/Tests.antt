-- ===== src/Fs/Vfs/Tests.antt =====
-- A directory at 1 with one entry at 5, a link to it at 2, and two links to one another at 3 and 4.
use sysx.Base.{
  ℕ, ◌≡◌, ◌≢◌, ◌↔◌, ◌⊎◌, inl, inr, refl, true, none, some, [], ◌∷◌, ◌==◌, ◌!=◌, if◌then◌else◌,
  arith, length, ◌<◌, bit_and,
}
use sysx.Helpers.Path.{path_traverse, elements}
use sysx.Fs.Vfs.{Hook, Node, reached, traverse_symlink, finddir, walk, traverse_path}
use sysx.Fs.Vfs.Symlink.{LinksTo, traverse_symlink_iff, traverse_symlink-cycle}
use sysx.Fs.Vfs.Walk.{visit, traverse_path-visit}

abbrev no_hook : Hook ℕ
no_hook = record {
  read = none;
  write = none;
  on_open = none;
  on_close = none;
  readdir = none;
  finddir = none;
  create = none;
  mkdir = none;
  remove = none;
  ioctl = none;
}

-- One name of one character is found.
abbrev dir_hook : Hook ℕ
dir_hook = record no_hook { finddir = some (λ node name s. (if length name == 1 then 5 else 0, s)) }

abbrev nodes : ℕ → Node ℕ
nodes n =
    if n == 1
    then record { flags = 2; hook = dir_hook; target = 0 }
    else if n == 2
    then record { flags = 32; hook = no_hook; target = 1 }
    else if n == 3
    then record { flags = 32; hook = no_hook; target = 4 }
    else if n == 4
    then record { flags = 32; hook = no_hook; target = 3 }
    else record { flags = 1; hook = no_hook; target = 0 }

walks_to_5 : traverse_path nodes 4 2 true 0 (some (b'/' ∷ b'.' ∷ b'/' ∷ b'x' ∷ [])) 0 ≡ reached 5 0
unfolding traverse_path walk finddir traverse_symlink path_traverse
walks_to_5 = refl

traverse_symlink_iff_example :
    (traverse_symlink nodes 4 2 ≡ some 1) ↔ ((n : ℕ) × (n < 4) × LinksTo nodes n 2 1)
traverse_symlink_iff_example = traverse_symlink_iff nodes 4 2 1

abbrev IsLoop : ℕ → Type 0
IsLoop n = (n ≡ 3) ⊎ (n ≡ 4)

IsLoop-closed :
    (a : ℕ)
    → IsLoop a
    → (a ≢ 0)
      × ((bit_and (nodes a).flags 32 != 0) ≡ true)
      × ((nodes a).target ≢ a)
      × IsLoop (nodes a).target
IsLoop-closed a (inl e) = rw e (omega arith, refl, omega arith, inr refl)
IsLoop-closed a (inr e) = rw e (omega arith, refl, omega arith, inl refl)

traverse_symlink-cycle_example : traverse_symlink nodes 100 3 ≡ none
traverse_symlink-cycle_example = traverse_symlink-cycle nodes IsLoop IsLoop-closed 100 3 (inl refl)

traverse_path-visit_example :
    traverse_path nodes 4 2 true 0 (some (b'/' ∷ b'x' ∷ [])) 0
    ≡ visit nodes 4 ([] ∷ (b'x' ∷ []) ∷ []) 2 0
unfolding elements
traverse_path-visit_example = traverse_path-visit nodes 4 2 0 (b'/' ∷ b'x' ∷ []) 0
