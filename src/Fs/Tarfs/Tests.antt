-- ===== src/Fs/Tarfs/Tests.antt =====
-- An archive with the directory "d" and the file "d/f" of three bytes.
use sysx.Base.{
  ℕ, ◌≡◌, refl, false, some, List, [], ◌∷◌, arith, ◌==◌, if◌then◌else◌, Bool-cases, inl, inr,
}
use sysx.Helpers.Path.{path_traverse}
use sysx.Libc.Stdlib.{strtoull, strtoul}
use sysx.Fs.Tarfs.{Header, TarNode, root, tar_init, vfs_finddir, vfs_readdir}
use sysx.Fs.Tarfs.Parse.{Fits, tar_init-ends}

abbrev header : List ℕ → List ℕ → ℕ → Header
header name size kind = record {
  name = name;
  uid = [];
  gid = [];
  size = size;
  mtime = [];
  kind = kind;
  is_ustar = false;
  name_prefix = [];
}

abbrev archive : ℕ → Header
archive a =
    if a == 4096
    then header (b'd' ∷ b'/' ∷ []) (b'0' ∷ []) b'5'
    else header (b'd' ∷ b'/' ∷ b'f' ∷ []) (b'3' ∷ []) b'0'

abbrev nodes : List TarNode
nodes =
    root
    ∷ record root { name = b'd' ∷ []; flags = 2; parent = some 0 }
    ∷ record root { name = b'f' ∷ []; flags = 1; length = 3; bytes = some 5120; parent = some 1 }
    ∷ []

reads_archive : tar_init archive 4096 1024 ≡ some nodes
unfolding tar_init path_traverse strtoull strtoul
reads_archive = refl

finds_f : (vfs_finddir nodes 1 (b'f' ∷ []) ≡ some 2) × (vfs_readdir nodes 0 0 ≡ some 1)
unfolding vfs_finddir vfs_readdir
finds_f = (refl, refl)

archive-Fits : Fits archive 5120
unfolding strtoull
archive-Fits a h = elim (Bool-cases (a == 4096)) [
  | inl first ↦ rw first (omega arith)
  | inr second ↦ rw second (omega arith)
]

tar_init-ends_example : (r : List TarNode) × (tar_init archive 4096 1024 ≡ some r)
tar_init-ends_example = tar_init-ends archive 4096 1024 (omega arith) archive-Fits
