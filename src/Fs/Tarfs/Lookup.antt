-- ===== src/Fs/Tarfs/Lookup.antt =====
-- What the search in a directory of an archive finds.
use sysx.Base.{
  ℕ, zero, suc, ◌+◌, ◌-◌, ◌≤◌, ◌<◌, ◌≡◌, ◌∙◌, sym, ap, refl, Bool, true, false, ◌&&◌, some, List,
  [], ◌∷◌, arith, length, get_or, Bool-cases, inl, inr,
}
use sysx.Fs.Tarfs.{TarNode, root, same_name, is_parent, find_child, drop, vfs_finddir}

-- The node is a child of the parent and has the name.
abbrev pub is_hit : ℕ → List ℕ → TarNode → Bool
is_hit parent name n = is_parent n.parent parent && same_name n.name name

abbrev FoundAt : List TarNode → ℕ → ℕ → List ℕ → ℕ → Type 0
FoundAt ns i parent name j =
    (i ≤ j)
    × (j - i < length ns)
    × (is_hit parent name (get_or ns (j - i) root) ≡ true)
    × ((k : ℕ) → k < j - i → is_hit parent name (get_or ns k root) ≡ false)

find_child-FoundAt :
    (ns : List TarNode) (i parent : ℕ) (name : List ℕ) (j : ℕ)
    → find_child ns i parent name ≡ some j
    → FoundAt ns i parent name j
unfolding find_child
find_child-FoundAt [] i parent name j h = cc
find_child-FoundAt (n ∷ ns) i parent name j h = elim (Bool-cases (is_hit parent name n)) [
  | inl here ↦
      let h' = rw here at h in
      let same : i ≡ j = cc in
      let first : j - i ≡ 0 = omega arith in
      (omega arith, omega arith, rw first here, λ k lt. absurd (omega arith))
  | inr there ↦
      let h' = rw there at h in behind there (find_child-FoundAt ns (i + 1) parent name j h')
]
  where
    behind :
        is_hit parent name n ≡ false
        → FoundAt ns (i + 1) parent name j
        → FoundAt (n ∷ ns) i parent name j
    behind there (le, lt, hit, before) =
        let next : j - i ≡ suc (j - (i + 1)) = omega arith in
        (omega arith, omega arith, rw next hit, earlier)
      where
        earlier : (k : ℕ) → k < j - i → is_hit parent name (get_or (n ∷ ns) k root) ≡ false
        earlier zero lt' = there
        earlier (suc k) lt' = before k (omega arith)

get_or-drop :
    (k : ℕ) (ns : List TarNode) (j : ℕ) → get_or (drop k ns) j root ≡ get_or ns (k + j) root
get_or-drop zero ns j = ap (λ x. get_or ns x root) (omega arith)
get_or-drop (suc k) [] j = refl
get_or-drop (suc k) (n ∷ ns) j =
    let e : suc k + j ≡ suc (k + j) = omega arith in
    get_or-drop k ns j ∙ ap (λ x. get_or (n ∷ ns) x root) (sym e)

-- What `tar_vfs_finddir` finds is the first child of the directory behind it that has the name.
pub vfs_finddir-first :
    (ns : List TarNode) (inode : ℕ) (name : List ℕ) (j : ℕ)
    → vfs_finddir ns inode name ≡ some j
    → (inode < j)
      × (is_hit inode name (get_or ns j root) ≡ true)
      × ((k : ℕ) → inode < k → k < j → is_hit inode name (get_or ns k root) ≡ false)
unfolding vfs_finddir
vfs_finddir-first ns inode name j h =
    let (le, lt, hit, before) =
      find_child-FoundAt (drop (inode + 1) ns) (inode + 1) inode name j h in
    let at : (k : ℕ)
        → inode < k
        → get_or (drop (inode + 1) ns) (k - (inode + 1)) root ≡ get_or ns k root =
      λ k past.
        get_or-drop (inode + 1) ns (k - (inode + 1)) ∙ ap (λ x. get_or ns x root) (omega arith) in
    (
      omega arith,
      ap (is_hit inode name) (sym (at j (omega arith))) ∙ hit,
      λ k past upto.
          ap (is_hit inode name) (sym (at k past)) ∙ before (k - (inode + 1)) (omega arith),
    )
